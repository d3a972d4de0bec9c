-- ===== src/Reporter.antt =====
-- internal/reporter/reporter.go: commit statuses, with retries. The server's replies and the end of the
-- context are parameters, by the number of the attempt.
use ghenkins.Prelude.{
  ℕ, zero, suc, ◌+◌, ◌≤◌, ◌<◌, ◌≡◌, refl, ap, subst, Bool, true, false, ◌&&◌, List, [], ◌∷◌, ◌++◌,
  Option, none, some, ◌⊎◌, inl, inr, ltb, leb, if◌then◌else◌, length, take, drop, arith,
  length-take-le,
}
use ghenkins.Prelude.Text.{Str, lit, str_eq}

pub record ReportRequest : Type 0 where
  pub owner : Str
  pub repo : Str
  pub sha : Str
  pub workflow_name : Str
  pub status : Str
  pub description : Str
  pub target_url : Str

-- github.RepoStatus; `none` is a nil TargetURL.
pub record RepoStatus : Type 0 where
  pub state : Str
  pub description : Str
  pub context : Str
  pub target_url : Option Str

-- desc[:limit] where desc is longer.
unfoldable pub cut : ℕ → Str → Str
cut limit desc = if ltb limit (length desc) then take limit desc else desc

unfoldable pub repo_status : ReportRequest → RepoStatus
unfolding cut
repo_status req = record {
  state = req.status;
  description = cut 140 req.description;
  context = lit "ghenkins/" ++ req.workflow_name;
  target_url = if str_eq req.target_url (lit "") then none else some req.target_url;
}

-- CreateStatus: no error, an error with a response of this status, or an error without a response.
pub data Reply : Type 0 where
  created no_response : Reply
  error_status : ℕ → Reply

pub data Outcome : Type 0 where
  reported ctx_err gave_up : Outcome
  refused : ℕ → Outcome

-- The result, the calls of CreateStatus, and the waits between them in seconds.
pub record Report : Type 0 where
  pub outcome : Outcome
  pub calls : ℕ
  pub waits : List ℕ

-- What the body of the loop returns after a call; `none` goes on to the next attempt.
unfoldable pub after_call : Reply → Option Outcome
after_call created = some reported
after_call no_response = none
after_call (error_status n) = if leb 400 n && ltb n 500 then some (refused n) else none

abbrev called : Report → Report
called r = record r { calls = suc r.calls }

abbrev waited : ℕ → Report → Report
waited b r = record r { waits = b ∷ r.waits }

abbrev stop : Outcome → Report
stop o = record { outcome = o; calls = 0; waits = [] }

-- The loop from an attempt on, with the backoffs in front of the later attempts. The wait is listed
-- when it is not cut short.
unfoldable pub attempts : (ℕ → Bool) → (ℕ → Reply) → ℕ → List ℕ → Report
unfolding after_call
attempts ctx_done reply n [] = elim (after_call (reply n)) [
  | some o ↦ called (stop o)
  | none ↦ called (stop gave_up)
]
attempts ctx_done reply n (b ∷ bs) = elim (after_call (reply n)) [
  | some o ↦ called (stop o)
  | none ↦ elim (ctx_done (suc n)) [
    | true ↦ called (stop ctx_err)
    | false ↦ called (waited b (attempts ctx_done reply (suc n) bs))
  ]
]

unfoldable pub report : (ℕ → Bool) → (ℕ → Reply) → Report
unfolding attempts
report ctx_done reply = attempts ctx_done reply 0 (1 ∷ 2 ∷ 4 ∷ [])

length-cut-le : (limit : ℕ) (s : Str) → length (cut limit s) ≤ limit
unfolding cut
length-cut-le limit s = ground (arith, length-take-le limit s)

take_rest : (n : ℕ) (s : Str) → take n s ++ drop (length (take n s)) s ≡ s
take_rest zero s = refl
take_rest (suc n) [] = refl
take_rest (suc n) (x ∷ s) = ap (λ r. x ∷ r) (take_rest n s)

all_rest : (s : Str) → s ++ drop (length s) s ≡ s
all_rest [] = refl
all_rest (x ∷ s) = ap (λ r. x ∷ r) (all_rest s)

cut-append : (limit : ℕ) (s : Str) → cut limit s ++ drop (length (cut limit s)) s ≡ s
unfolding cut
cut-append limit s = ground (arith, take_rest limit s, all_rest s)

-- The description that is sent is a prefix of the one that was asked for and has at most 140 bytes.
pub description-cut :
    (req : ReportRequest)
    → (length (repo_status req).description ≤ 140)
      × ((repo_status req).description
            ++ drop (length (repo_status req).description) req.description
          ≡ req.description)
unfolding repo_status
description-cut req = (length-cut-le 140 req.description, cut-append 140 req.description)

attempts-calls :
    (ctx_done : ℕ → Bool) (reply : ℕ → Reply) (n : ℕ) (bs : List ℕ)
    → (1 ≤ (attempts ctx_done reply n bs).calls)
      × ((attempts ctx_done reply n bs).calls ≤ suc (length bs))
unfolding attempts
attempts-calls ctx_done reply n [] = (ground arith, ground arith)
attempts-calls ctx_done reply n (b ∷ bs) =
    let r = attempts-calls ctx_done reply (suc n) bs in (ground (arith, r.0), ground (arith, r.1))

-- Report calls the server once at least and four times at most.
pub report-calls :
    (ctx_done : ℕ → Bool) (reply : ℕ → Reply)
    → (1 ≤ (report ctx_done reply).calls) × ((report ctx_done reply).calls ≤ 4)
unfolding report
report-calls ctx_done reply = attempts-calls ctx_done reply 0 (1 ∷ 2 ∷ 4 ∷ [])

-- A reply to be tried again: an error without a response, or one whose status is not 4xx.
abbrev pub IsTransient : Reply → Type 0
IsTransient x = (x ≡ no_response) ⊎ ((n : ℕ) × (x ≡ error_status n) × ((n < 400) ⊎ (500 ≤ n)))

client_error : (n : ℕ) → ((n < 400) ⊎ (500 ≤ n)) ⊎ ((leb 400 n && ltb n 500) ≡ true)
client_error n = ground arith

after_call-IsTransient : (x : Reply) → after_call x ≡ none → IsTransient x
unfolding after_call
after_call-IsTransient created e = cc
after_call-IsTransient no_response e = inl refl
after_call-IsTransient (error_status n) e = elim (client_error n) [
  | inl h ↦ inr (n, refl, h)
  | inr h ↦ ground (arith, h)
]

attempts-retries :
    (ctx_done : ℕ → Bool) (reply : ℕ → Reply) (n : ℕ) (bs : List ℕ) (i : ℕ)
    → suc i < (attempts ctx_done reply n bs).calls
    → after_call (reply (n + i)) ≡ none
unfolding attempts
attempts-retries ctx_done reply n [] i h =
    absurd (omega (arith, h, (attempts-calls ctx_done reply n []).1))
attempts-retries ctx_done reply n (b ∷ bs) zero h =
    let e : n + 0 ≡ n = omega arith in rw e (ground arith)
attempts-retries ctx_done reply n (b ∷ bs) (suc i) h =
    let e : n + suc i ≡ suc n + i = omega arith in
    rw e (attempts-retries ctx_done reply (suc n) bs i (ground arith))

-- Report calls the server again only after an error without a response, or one whose status is below 400
-- or at least 500.
pub report-retries :
    (ctx_done : ℕ → Bool) (reply : ℕ → Reply) (i : ℕ)
    → suc i < (report ctx_done reply).calls
    → IsTransient (reply i)
unfolding report
report-retries ctx_done reply i h =
    let e : 0 + i ≡ i = omega arith in
    after_call-IsTransient (reply i) (
      subst (λ k. after_call (reply k) ≡ none) e
        (attempts-retries ctx_done reply 0 (1 ∷ 2 ∷ 4 ∷ []) i h))
