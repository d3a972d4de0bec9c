-- ===== src/Daemon/Shared.antt =====
-- The runs of internal/daemon/daemon.go that are in flight at a time: the semaphore, and the
-- fields CurrentRunID and JobCallback of the one PodmanRunner that they share.
use ghenkins.Prelude.{
  ℕ, zero, suc, ◌≡◌, ◌≤◌, ◌<◌, refl, sym, ap, subst, Bool, true, false, List, [], ◌∷◌, Option, none,
  some, arith, All, length, get_elem?,
}
use ghenkins.Prelude.Text.{Str}

-- A goroutine in runJob, and whether it has set the fields of the runner.
pub record Flight : Type 0 where
  pub run_id : Str
  pub is_wired : Bool

-- A call of JobCallback: the run whose job it is about, and the run that the callback has captured.
pub record Heard : Type 0 where
  pub of_run : Str
  pub captured : Str

pub record State : Type 0 where
  pub flights : List Flight
  pub captured : Str
  pub heard : List Heard

abbrev pub idle : State
idle = record { flights = []; captured = []; heard = [] }

unfoldable pub wire_at : ℕ → List Flight → List Flight
wire_at i [] = []
wire_at zero (f ∷ fs) = record f { is_wired = true } ∷ fs
wire_at (suc i) (f ∷ fs) = f ∷ wire_at i fs

unfoldable pub remove_at : ℕ → List Flight → List Flight
remove_at i [] = []
remove_at zero (f ∷ fs) = fs
remove_at (suc i) (f ∷ fs) = f ∷ remove_at i fs

-- With room for `slots` values in the semaphore.
pub data Step (slots : ℕ) : State → State → Type 0 where
  -- d.sem <- struct{}{}, then go d.runJob
  acquire :
      (s : State) (id : Str)
      → length s.flights < slots
      → Step slots s (record s { flights = record { run_id = id; is_wired = false } ∷ s.flights })
  -- pr.CurrentRunID = runID, pr.JobCallback = ...
  wire :
      (s : State) (i : ℕ) (f : Flight)
      → get_elem? s.flights i ≡ some f
      → Step slots s (record s { flights = wire_at i s.flights; captured = f.run_id })
  -- r.JobCallback(...) in Run
  call_back :
      (s : State) (i : ℕ) (f : Flight)
      → get_elem? s.flights i ≡ some f
      → f.is_wired ≡ true
      → Step slots s
          (record s { heard = record { of_run = f.run_id; captured = s.captured } ∷ s.heard })
  -- <-d.sem
  release : (s : State) (i : ℕ) → Step slots s (record s { flights = remove_at i s.flights })

pub data Reach (slots : ℕ) : State → Type 0 where
  start : Reach slots idle
  step : (s s' : State) → Reach slots s → Step slots s s' → Reach slots s'

length-wire_at : (i : ℕ) (fs : List Flight) → length (wire_at i fs) ≡ length fs
unfolding wire_at
length-wire_at i [] = refl
length-wire_at zero (f ∷ fs) = refl
length-wire_at (suc i) (f ∷ fs) = ap suc (length-wire_at i fs)

length-remove_at-le : (i : ℕ) (fs : List Flight) → length (remove_at i fs) ≤ length fs
unfolding remove_at
length-remove_at-le i [] = omega arith
length-remove_at-le zero (f ∷ fs) = omega arith
length-remove_at-le (suc i) (f ∷ fs) = omega (arith, length-remove_at-le i fs)

Step-bounded :
    (slots : ℕ) (s s' : State)
    → Step slots s s'
    → length s.flights ≤ slots
    → length s'.flights ≤ slots
Step-bounded slots _ _ (acquire s id room) h = omega arith
Step-bounded slots _ _ (wire s i f e) h = omega (arith, length-wire_at i s.flights)
Step-bounded slots _ _ (call_back s i f e w) h = h
Step-bounded slots _ _ (release s i) h = omega (arith, length-remove_at-le i s.flights)

-- No more than MaxConcurrency runs are in flight at a time.
pub Reach-bounded : (slots : ℕ) (s : State) → Reach slots s → length s.flights ≤ slots
Reach-bounded slots _ start = omega arith
Reach-bounded slots _ (step s s' r t) = Step-bounded slots s s' t (Reach-bounded slots s r)

-- A run that has set the fields is the one that the callback has captured.
abbrev IsOwn : Str → Flight → Type 0
IsOwn captured f = f.is_wired ≡ true → captured ≡ f.run_id

abbrev IsRight : Heard → Type 0
IsRight h = h.captured ≡ h.of_run

abbrev pub Attributed : State → Type 0
Attributed s = All (IsOwn s.captured) s.flights × All IsRight s.heard

abbrev this_or {ℓ} : {A : Type ℓ} → A → Option A → A
this_or a none = a
this_or a (some x) = x

All-get {ℓ κ} :
    {A : Type ℓ} (P : A → Type κ) (xs : List A) (i : ℕ) (a : A)
    → All P xs
    → get_elem? xs i ≡ some a
    → P a
All-get P [] i a h e = cc
All-get P (x ∷ xs) zero a h e = subst P (ap (this_or x) e) h.0
All-get P (x ∷ xs) (suc i) a h e = All-get P xs i a h.1 e

All-remove_at {κ} :
    (P : Flight → Type κ) (i : ℕ) (fs : List Flight) → All P fs → All P (remove_at i fs)
unfolding remove_at
All-remove_at P i [] h = h
All-remove_at P zero (f ∷ fs) h = h.1
All-remove_at P (suc i) (f ∷ fs) h = (h.0, All-remove_at P i fs h.1)

-- The one run in flight captures the callback.
wire_one :
    (i : ℕ) (f : Flight) (fs : List Flight)
    → length fs ≤ 1
    → get_elem? fs i ≡ some f
    → All (IsOwn f.run_id) (wire_at i fs)
unfolding wire_at
wire_one i f [] h e = cc
wire_one zero f (g ∷ []) h e = (λ w. sym (ap (λ o. (this_or g o).run_id) e), tt)
wire_one (suc i) f (g ∷ []) h e = cc
wire_one i f (g ∷ g' ∷ fs) h e = absurd (omega arith)

Step-Attributed : (s s' : State) → Step 1 s s' → length s.flights ≤ 1 → Attributed s → Attributed s'
Step-Attributed _ _ (acquire s id room) h a = ((λ w. cc, a.0), a.1)
Step-Attributed _ _ (wire s i f e) h a = (wire_one i f s.flights h e, a.1)
Step-Attributed _ _ (call_back s i f e w) h a =
    (a.0, (All-get (IsOwn s.captured) s.flights i f a.0 e w, a.1))
Step-Attributed _ _ (release s i) h a = (All-remove_at (IsOwn s.captured) i s.flights a.0, a.1)

-- With room for one run, each call of JobCallback reaches the callback of the run that its job belongs to.
pub Reach-Attributed : (s : State) → Reach 1 s → Attributed s
Reach-Attributed _ start = (tt, tt)
Reach-Attributed _ (step s s' r t) =
    Step-Attributed s s' t (Reach-bounded 1 s r) (Reach-Attributed s r)

-- Two runs in flight, with a call about the one that the callback of the other has taken.
abbrev pub Crossed : Str → Str → State
Crossed a b = record {
  flights = record { run_id = b; is_wired = true } ∷ record { run_id = a; is_wired = true } ∷ [];
  captured = b;
  heard = record { of_run = a; captured = b } ∷ [];
}

-- With room for two runs or more, a call of JobCallback about a job of one run can reach the callback of any
-- other run.
pub Crossed-Reach : (slots : ℕ) (a b : Str) → 2 ≤ slots → Reach slots (Crossed a b)
unfolding wire_at
Crossed-Reach slots a b h =
    let fa : Flight = record { run_id = a; is_wired = false } in
    let fb : Flight = record { run_id = b; is_wired = false } in
    let wa : Flight = record { run_id = a; is_wired = true } in
    let s1 : State = record { flights = fa ∷ []; captured = []; heard = [] } in
    let s2 : State = record { flights = wa ∷ []; captured = a; heard = [] } in
    let s3 : State = record { flights = fb ∷ wa ∷ []; captured = a; heard = [] } in
    let s4 : State = record {
      flights = record { run_id = b; is_wired = true } ∷ wa ∷ [];
      captured = b;
      heard = [];
    } in
    let r1 : Reach slots s1 = step idle s1 start (acquire idle a (omega arith)) in
    let r2 : Reach slots s2 = step s1 s2 r1 (wire s1 0 fa refl) in
    let r3 : Reach slots s3 = step s2 s3 r2 (acquire s2 b (omega arith)) in
    let r4 : Reach slots s4 = step s3 s4 r3 (wire s3 0 fb refl) in
    step s4 (Crossed a b) r4 (call_back s4 1 wa refl refl)
