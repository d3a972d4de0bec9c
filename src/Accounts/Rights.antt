-- ===== src/Accounts/Rights.antt =====
-- Who may change the users through the handlers of internal/logserver/server.go.
use ghenkins.Prelude.{
  ℕ, ◌≤◌, ◌≡◌, refl, subst, sym, ap, ◌∙◌, ◌⊎◌, inl, inr, false, ◌==◌, ltb, List, [], ◌∷◌, Option,
  none, some, arith, length, Member, Bool-cases, Option-cases,
}
use ghenkins.Prelude.Text.{Str, lit, str_eq, str_eq_iff}
use ghenkins.Store.{select, any, first}
use ghenkins.Store.Selections.{first_select}
use ghenkins.Accounts.{
  User, Session, Accounts, Crypto, Draw, Credentials, Answer, answer, Request, setup_status, logout,
  me, list_users, setup, login, create_api_user, delete_api_user, update_password, get_session,
  delete_session, delete_user, unexpired, get_user_by_id, get_user_by_username, open_session,
  create_session, with_token, is_admin, in_session, as_user, auth_middleware, admin_middleware,
  only_admin, handle_logout, handle_login, handle_setup, handle_update_password,
  handle_create_api_user, user_count, handle,
}

module _ {A : Type 0} where
  List-cases : (xs : List A) → (xs ≡ []) ⊎ ((y : A) × (ys : List A) × (xs ≡ y ∷ ys))
  List-cases [] = inl refl
  List-cases (y ∷ ys) = inr (y, ys, refl)

-- The user is one whose session has the token and has not expired.
abbrev pub IsUser : Accounts → ℕ → Str → User → Type 0
IsUser s now token u =
    (x : Session) × Member x s.sessions
    × (x.token ≡ token)
    × (now ≤ x.expires_at)
    × Member u s.users
    × (u.id ≡ x.user_id)

-- The requests that may change the users: the set-up while there are none, an administrator's, and a
-- user's for the own password.
pub data Entitled (s : Accounts) (now : ℕ) : Option Str → Request → Type 0 where
  first_setup :
      (cookie : Option Str) (body : Option Credentials)
      → s.users ≡ []
      → Entitled s now cookie (setup body)
  admin_creates :
      (token : Str) (u : User) (body : Option Credentials)
      → IsUser s now token u
      → u.role ≡ lit "admin"
      → Entitled s now (some token) (create_api_user body)
  admin_deletes :
      (token : Str) (u : User) (id : Str)
      → IsUser s now token u
      → u.role ≡ lit "admin"
      → Entitled s now (some token) (delete_api_user id)
  admin_sets_password :
      (token : Str) (u : User) (id : Str) (body : Option Str)
      → IsUser s now token u
      → u.role ≡ lit "admin"
      → Entitled s now (some token) (update_password id body)
  own_password :
      (token : Str) (u : User) (body : Option Str)
      → IsUser s now token u
      → Entitled s now (some token) (update_password u.id body)

abbrev pub SameUsers : Accounts → Answer × Accounts → Type 0
SameUsers s r = r.1.users ≡ s.users

-- A guarded handler leaves the users alone, or is called for a user.
abbrev Called : ℕ → Option Str → Accounts → (User → Accounts → Answer × Accounts) → Type 0
Called now cookie s next =
    (token : Str) × (u : User) × (cookie ≡ some token)
    × IsUser s now token u
    × (auth_middleware now cookie s next ≡ next u s)

as_user-cases :
    (now : ℕ) (token : Str) (x : Session) (s : Accounts)
    (next : User → Accounts → Answer × Accounts) (o : Option User)
    → Member x s.sessions
    → x.token ≡ token
    → now ≤ x.expires_at
    → get_user_by_id s x.user_id ≡ o
    → SameUsers s (as_user o s next)
      ⊎ ((u : User) × IsUser s now token u × (as_user o s next ≡ next u s))
unfolding get_user_by_id
as_user-cases now token x s next none m t f e = inl refl
as_user-cases now token x s next (some u) m t f e =
    let r = first_select (λ y. str_eq y.id x.user_id) s.users u e in
    inr (u, (x, m, t, f, r.0, (str_eq_iff u.id x.user_id).0 r.1), refl)

in_session-cases :
    (now : ℕ) (token : Str) (s : Accounts) (next : User → Accounts → Answer × Accounts)
    (o : Option Session)
    → first (select (λ y. str_eq y.token token) s.sessions) ≡ o
    → SameUsers s (in_session (unexpired now s token o) next)
      ⊎ ((u : User) × IsUser s now token u × (in_session (unexpired now s token o) next ≡ next u s))
unfolding delete_session
in_session-cases now token s next none e = inl refl
in_session-cases now token s next (some x) e = elim (Bool-cases (ltb x.expires_at now)) [
  | inl h ↦ inl (rw h refl)
  | inr h ↦
      let r = first_select (λ y. str_eq y.token token) s.sessions x e in
      rw h (
        as_user-cases now token x s next (get_user_by_id s x.user_id) r.0
          ((str_eq_iff x.token token).0 r.1) (ground arith) refl)
]

auth_middleware-cases :
    (now : ℕ) (cookie : Option Str) (s : Accounts) (next : User → Accounts → Answer × Accounts)
    → SameUsers s (auth_middleware now cookie s next) ⊎ Called now cookie s next
unfolding auth_middleware get_session
auth_middleware-cases now none s next = inl refl
auth_middleware-cases now (some token) s next =
    elim (in_session-cases now token s next (first (select (λ y. str_eq y.token token) s.sessions))
      refl) [ inl h ↦ inl h | inr (u, is_user, e) ↦ inr (token, u, refl, is_user, e) ]

admin_middleware-cases :
    (now : ℕ) (cookie : Option Str) (s : Accounts) (next : Accounts → Answer × Accounts)
    → SameUsers s (admin_middleware now cookie s next)
      ⊎ ((token : Str) × (u : User) × (cookie ≡ some token)
          × IsUser s now token u
          × (u.role ≡ lit "admin"))
unfolding admin_middleware
admin_middleware-cases now cookie s next =
    elim (auth_middleware-cases now cookie s (only_admin next)) [
      | inl h ↦ inl h
      | inr (token, u, c, is_user, e) ↦ elim (Bool-cases (is_admin u)) [
        | inl a ↦ inr (token, u, c, is_user, (str_eq_iff u.role (lit "admin")).0 a)
        | inr n ↦
            let refused : only_admin next u s ≡ answer 403 s = rw n refl in
            inl (ap (λ r. r.1.users) (e ∙ refused))
      ]
    ]

with_token-users :
    (d : Draw) (id : Str) (s : Accounts) (o : Option Str) → SameUsers s (with_token d id s o)
unfolding create_session
with_token-users d id s none = refl
with_token-users d id s (some token) =
    elim (Bool-cases (any (λ y. str_eq y.token token) s.sessions)) [
      | inl h ↦ rw h refl
      | inr h ↦ rw h refl
    ]

handle_login-users :
    (C : Crypto) (d : Draw) (body : Option Credentials) (s : Accounts)
    → SameUsers s (handle_login C d s body)
unfolding handle_login open_session
handle_login-users C d none s = refl
handle_login-users C d (some c) s = elim (Option-cases (get_user_by_username s c.username)) [
  | inl n ↦ rw (n, handle_login) refl
  | inr (u, n) ↦ elim (Bool-cases (C.check_password u.password_hash c.password)) [
    | inl h ↦ rw (n, h, handle_login) (with_token-users d u.id s d.token)
    | inr h ↦ rw (n, h, handle_login) refl
  ]
]

handle_setup-users :
    (C : Crypto) (d : Draw) (body : Option Credentials) (s : Accounts)
    → SameUsers s (handle_setup C d s body) ⊎ (s.users ≡ [])
unfolding handle_setup
handle_setup-users C d body s = elim (List-cases s.users) [
  | inl e ↦ inr e
  | inr (u, us, e) ↦
      let many = ap length e in
      let some_user : (user_count s == 0) ≡ false = ground (arith, many) in
      inl (rw (some_user, handle_setup) refl)
]

auth_middleware-users :
    (now : ℕ) (cookie : Option Str) (s : Accounts) (next : User → Accounts → Answer × Accounts)
    → ((u : User) → SameUsers s (next u s))
    → SameUsers s (auth_middleware now cookie s next)
auth_middleware-users now cookie s next h = elim (auth_middleware-cases now cookie s next) [
  | inl same ↦ same
  | inr (token, u, c, is_user, e) ↦ ap (λ r. r.1.users) e ∙ h u
]

only_admin-users :
    (s : Accounts) (next : Accounts → Answer × Accounts)
    → SameUsers s (next s)
    → (u : User) → SameUsers s (only_admin next u s)
only_admin-users s next h u = elim (Bool-cases (is_admin u)) [ inl a ↦ rw a h | inr n ↦ rw n refl ]

handle_logout-users : (cookie : Option Str) (s : Accounts) → SameUsers s (handle_logout cookie s)
unfolding handle_logout delete_session
handle_logout-users none s = refl
handle_logout-users (some token) s = refl

update_password-cases :
    (C : Crypto) (u : User) (s : Accounts) (id : Str) (body : Option Str)
    → SameUsers s (handle_update_password C u s id body) ⊎ ((u.role ≡ lit "admin") ⊎ (u.id ≡ id))
unfolding handle_update_password
update_password-cases C u s id body = elim (Bool-cases (is_admin u)) [
  | inl a ↦ inr (inl ((str_eq_iff u.role (lit "admin")).0 a))
  | inr n ↦ elim (Bool-cases (str_eq u.id id)) [
    | inl own ↦ inr (inr ((str_eq_iff u.id id).0 own))
    | inr other ↦ inl (rw (n, other, handle_update_password) refl)
  ]
]

-- A request that does not leave the users as they are is one that may change them: the first set-up, an
-- administrator's with a session that has not expired, or a user's for the own password.
pub handle-Entitled :
    (C : Crypto) (d : Draw) (cookie : Option Str) (q : Request) (s : Accounts)
    → SameUsers s (handle C d cookie q s) ⊎ Entitled s d.now cookie q
unfolding handle handle_logout delete_session
handle-Entitled C d cookie setup_status s = inl refl
handle-Entitled C d cookie (setup body) s = elim (handle_setup-users C d body s) [
  | inl h ↦ inl h
  | inr e ↦ inr (first_setup cookie body e)
]
handle-Entitled C d cookie (login body) s = inl (handle_login-users C d body s)
handle-Entitled C d cookie logout s =
    inl (auth_middleware-users d.now cookie s _ (λ u. handle_logout-users cookie s))
handle-Entitled C d cookie me s = inl (auth_middleware-users d.now cookie s _ (λ u. refl))
handle-Entitled C d cookie list_users s =
    inl (auth_middleware-users d.now cookie s _ (only_admin-users s (λ s. answer 200 s) refl))
handle-Entitled C d cookie (create_api_user body) s =
    elim (admin_middleware-cases d.now cookie s (λ s. handle_create_api_user C d s body)) [
      | inl h ↦ inl h
      | inr (token, u, c, is_user, admin) ↦ inr (
          subst (λ k. Entitled s d.now k (create_api_user body)) (sym c)
            (admin_creates token u body is_user admin))
    ]
handle-Entitled C d cookie (delete_api_user id) s =
    elim (admin_middleware-cases d.now cookie s (λ s. answer 200 (delete_user s id))) [
      | inl h ↦ inl h
      | inr (token, u, c, is_user, admin) ↦ inr (
          subst (λ k. Entitled s d.now k (delete_api_user id)) (sym c)
            (admin_deletes token u id is_user admin))
    ]
handle-Entitled C d cookie (update_password id body) s =
    elim (auth_middleware-cases d.now cookie s (λ u s. handle_update_password C u s id body)) [
      | inl h ↦ inl h
      | inr (token, u, c, is_user, e) ↦ elim (update_password-cases C u s id body) [
        | inl h ↦ inl (ap (λ r. r.1.users) e ∙ h)
        | inr (inl admin) ↦ inr (
            subst (λ k. Entitled s d.now k (update_password id body)) (sym c)
              (admin_sets_password token u id body is_user admin))
        | inr (inr own) ↦ inr (
            subst (λ k. Entitled s d.now k (update_password id body)) (sym c)
              (subst (λ j. Entitled s d.now (some token) (update_password j body)) own
                (own_password token u body is_user)))
      ]
    ]
