-- ===== src/Accounts.antt =====
-- Users and sessions: their tables in internal/store/store.go, and the handlers of
-- internal/logserver/server.go that read and write them behind authMiddleware and adminMiddleware. Times are
-- in seconds, and the bodies of the answers are left out.
pub mod Rights
use ghenkins.Prelude.{
  ℕ, ◌+◌, ◌≡◌, Bool, true, false, not, ◌&&◌, ◌||◌, ltb, ◌==◌, List, [], ◌∷◌, ◌++◌, Option, none,
  some, length, if◌then◌else◌,
}
use ghenkins.Prelude.Text.{Str, lit, str_eq}
use ghenkins.Store.{select, update, any, first}

pub record User : Type 0 where
  pub id : Str
  pub username : Str
  pub password_hash : Str
  pub role : Str
  pub created_at : ℕ

pub record Session : Type 0 where
  pub token : Str
  pub user_id : Str
  pub expires_at : ℕ

pub record Accounts : Type 0 where
  pub users : List User
  pub sessions : List Session

-- The store. An id and a username stand once in the table of users, a token once in that of sessions.
unfoldable pub create_user : Accounts → User → Option Accounts
unfolding any
create_user s u =
    if any (λ x. str_eq x.id u.id || str_eq x.username u.username) s.users
    then none
    else some (record s { users = s.users ++ u ∷ [] })

unfoldable pub get_user_by_username : Accounts → Str → Option User
unfolding select
get_user_by_username s name = first (select (λ x. str_eq x.username name) s.users)

unfoldable pub get_user_by_id : Accounts → Str → Option User
unfolding select
get_user_by_id s id = first (select (λ x. str_eq x.id id) s.users)

unfoldable pub delete_user : Accounts → Str → Accounts
unfolding select
delete_user s id = record s { users = select (λ x. not (str_eq x.id id)) s.users }

unfoldable pub update_user_password : Accounts → Str → Str → Accounts
unfolding update
update_user_password s id hash = record s {
  users = update (λ x. str_eq x.id id) (λ x. record x { password_hash = hash }) s.users;
}

abbrev pub user_count : Accounts → ℕ
user_count s = length s.users

unfoldable pub create_session : Accounts → Session → Option Accounts
unfolding any
create_session s x =
    if any (λ y. str_eq y.token x.token) s.sessions
    then none
    else some (record s { sessions = s.sessions ++ x ∷ [] })

unfoldable pub delete_session : Accounts → Str → Accounts
unfolding select
delete_session s token = record s { sessions = select (λ y. not (str_eq y.token token)) s.sessions }

-- GetSession takes an expired session from the table.
abbrev pub unexpired : ℕ → Accounts → Str → Option Session → Option Session × Accounts
unexpired now s token none = (none, s)
unexpired now s token (some x) =
    if ltb x.expires_at now then (none, delete_session s token) else (some x, s)

unfoldable pub get_session : ℕ → Accounts → Str → Option Session × Accounts
unfolding select delete_session
get_session now s token =
    unexpired now s token (first (select (λ y. str_eq y.token token) s.sessions))

-- bcrypt; `none` is an error.
pub record Crypto : Type 0 where
  pub hash_password : Str → Option Str
  pub check_password : Str → Str → Bool

-- What a handler draws: generateID, GenerateToken, and the time.
pub record Draw : Type 0 where
  pub id : Str
  pub token : Option Str
  pub now : ℕ

pub record Credentials : Type 0 where
  pub username : Str
  pub password : Str
  pub role : Str

-- A request with its decoded body; `none` is a body that cannot be decoded.
pub data Request : Type 0 where
  setup_status logout me list_users : Request
  setup login create_api_user : Option Credentials → Request
  delete_api_user : Str → Request
  update_password : Str → Option Str → Request

-- The status, and the session cookie that is set; the empty text ends it.
pub record Answer : Type 0 where
  pub status : ℕ
  pub cookie : Option Str

abbrev pub answer : ℕ → Accounts → Answer × Accounts
answer status s = (record { status = status; cookie = none }, s)

abbrev week : ℕ
week = 604800

abbrev with_cookie : Str → Option Accounts → Accounts → Answer × Accounts
with_cookie token none s = answer 500 s
with_cookie token (some s) _ = (record { status = 200; cookie = some token }, s)

abbrev pub with_token : Draw → Str → Accounts → Option Str → Answer × Accounts
with_token d user_id s none = answer 500 s
with_token d user_id s (some token) =
    with_cookie token
      (create_session s (record { token = token; user_id = user_id; expires_at = d.now + week })) s

-- From GenerateToken on, for the user with the identifier.
unfoldable pub open_session : Draw → Str → Accounts → Answer × Accounts
unfolding create_session
open_session d user_id s = with_token d user_id s d.token

abbrev new_user : Draw → Str → Str → Str → User
new_user d username hash role = record {
  id = d.id;
  username = username;
  password_hash = hash;
  role = role;
  created_at = d.now;
}

abbrev pub is_empty : Str → Bool
is_empty s = str_eq s (lit "")

abbrev opened : Draw → Accounts → Option Accounts → Answer × Accounts
opened d s none = answer 500 s
opened d _ (some s) = open_session d d.id s

abbrev setup_with : Crypto → Draw → Accounts → Credentials → Answer × Accounts
setup_with C d s c =
    if is_empty c.username || is_empty c.password
    then answer 400 s
    else elim (C.hash_password c.password) [
      | none ↦ answer 500 s
      | some hash ↦ opened d s (create_user s (new_user d c.username hash (lit "admin")))
    ]

unfoldable pub handle_setup : Crypto → Draw → Accounts → Option Credentials → Answer × Accounts
unfolding create_user open_session
handle_setup C d s body =
    if user_count s == 0
    then elim body [ none ↦ answer 400 s | some c ↦ setup_with C d s c ]
    else answer 409 s

unfoldable pub handle_login : Crypto → Draw → Accounts → Option Credentials → Answer × Accounts
unfolding get_user_by_username open_session
handle_login C d s body = elim body [
  | none ↦ answer 400 s
  | some c ↦ elim (get_user_by_username s c.username) [
    | none ↦ answer 401 s
    | some u ↦
        if C.check_password u.password_hash c.password then open_session d u.id s else answer 401 s
  ]
]

unfoldable pub handle_logout : Option Str → Accounts → Answer × Accounts
unfolding delete_session
handle_logout cookie s = elim cookie [
  | none ↦ (record { status = 200; cookie = some [] }, s)
  | some token ↦ (record { status = 200; cookie = some [] }, delete_session s token)
]

abbrev created : Accounts → Option Accounts → Answer × Accounts
created s none = answer 500 s
created _ (some s) = answer 201 s

abbrev role_of : Str → Str
role_of role = if is_empty role then lit "user" else role

abbrev create_with : Crypto → Draw → Accounts → Credentials → Answer × Accounts
create_with C d s c =
    if is_empty c.username || is_empty c.password
    then answer 400 s
    else elim (C.hash_password c.password) [
      | none ↦ answer 500 s
      | some hash ↦ created s (create_user s (new_user d c.username hash (role_of c.role)))
    ]

unfoldable pub handle_create_api_user :
    Crypto → Draw → Accounts → Option Credentials → Answer × Accounts
unfolding create_user
handle_create_api_user C d s body = elim body [ none ↦ answer 400 s | some c ↦ create_with C d s c ]

abbrev is_admin : User → Bool
is_admin u = str_eq u.role (lit "admin")

abbrev password_with : Crypto → Accounts → Str → Str → Answer × Accounts
password_with C s id password =
    if is_empty password then answer 400 s else elim (C.hash_password password) [
      | none ↦ answer 500 s
      | some hash ↦ answer 200 (update_user_password s id hash)
    ]

unfoldable pub handle_update_password :
    Crypto → User → Accounts → Str → Option Str → Answer × Accounts
unfolding update_user_password
handle_update_password C u s id body =
    if not (is_admin u) && not (str_eq u.id id)
    then answer 403 s
    else elim body [ none ↦ answer 400 s | some password ↦ password_with C s id password ]

abbrev as_user : Option User → Accounts → (User → Accounts → Answer × Accounts) → Answer × Accounts
as_user none s next = answer 401 s
as_user (some u) s next = next u s

abbrev in_session :
    Option Session × Accounts → (User → Accounts → Answer × Accounts) → Answer × Accounts
in_session (none, s) next = answer 401 s
in_session (some x, s) next = as_user (get_user_by_id s x.user_id) s next

unfoldable pub auth_middleware :
    ℕ → Option Str → Accounts → (User → Accounts → Answer × Accounts) → Answer × Accounts
unfolding get_session get_user_by_id
auth_middleware now cookie s next = elim cookie [
  | none ↦ answer 401 s
  | some token ↦ in_session (get_session now s token) next
]

abbrev only_admin : (Accounts → Answer × Accounts) → User → Accounts → Answer × Accounts
only_admin next u s = if is_admin u then next s else answer 403 s

unfoldable pub admin_middleware :
    ℕ → Option Str → Accounts → (Accounts → Answer × Accounts) → Answer × Accounts
unfolding auth_middleware
admin_middleware now cookie s next = auth_middleware now cookie s (only_admin next)

-- The routes.
unfoldable pub handle : Crypto → Draw → Option Str → Request → Accounts → Answer × Accounts
unfolding handle_setup handle_login handle_logout handle_create_api_user handle_update_password
    delete_user auth_middleware admin_middleware
handle C d cookie setup_status s = answer 200 s
handle C d cookie (setup body) s = handle_setup C d s body
handle C d cookie (login body) s = handle_login C d s body
handle C d cookie logout s = auth_middleware d.now cookie s (λ u s. handle_logout cookie s)
handle C d cookie me s = auth_middleware d.now cookie s (λ u s. answer 200 s)
handle C d cookie list_users s = admin_middleware d.now cookie s (λ s. answer 200 s)
handle C d cookie (create_api_user body) s =
    admin_middleware d.now cookie s (λ s. handle_create_api_user C d s body)
handle C d cookie (delete_api_user id) s =
    admin_middleware d.now cookie s (λ s. answer 200 (delete_user s id))
handle C d cookie (update_password id body) s =
    auth_middleware d.now cookie s (λ u s. handle_update_password C u s id body)
