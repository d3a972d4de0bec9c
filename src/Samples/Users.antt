-- ===== src/Samples/Users.antt =====
-- Requests of internal/logserver/server.go.
use ghenkins.Prelude.{◌≡◌, ◌⊎◌, refl, [], ◌∷◌, none, some}
use ghenkins.Prelude.Text.{Str, lit, str_eq}
use ghenkins.Accounts.{User, Accounts, Crypto, Draw, delete_api_user, handle}
use ghenkins.Accounts.Rights.{SameUsers, Entitled, handle-Entitled}

-- A hash that is the password itself.
abbrev plain : Crypto
plain = record { hash_password = λ p. some p; check_password = λ h p. str_eq h p }

abbrev user : Str → Str → User
user name role = record {
  id = name;
  username = name;
  password_hash = lit "x";
  role = role;
  created_at = 0;
}

abbrev accounts : Accounts
accounts = record {
  users = user (lit "ann") (lit "admin") ∷ user (lit "bob") (lit "user") ∷ [];
  sessions =
      record { token = lit "t"; user_id = lit "ann"; expires_at = 100 }
      ∷ record { token = lit "u"; user_id = lit "bob"; expires_at = 100 }
      ∷ [];
}

abbrev draw : Draw
draw = record { id = lit "i"; token = some (lit "v"); now = 50 }

handle-Entitled_example :
    SameUsers accounts (handle plain draw (some (lit "t")) (delete_api_user (lit "bob")) accounts)
    ⊎ Entitled accounts 50 (some (lit "t")) (delete_api_user (lit "bob"))
handle-Entitled_example =
    handle-Entitled plain draw (some (lit "t")) (delete_api_user (lit "bob")) accounts

admin_deletes_runs :
    (handle plain draw (some (lit "t")) (delete_api_user (lit "bob")) accounts).1.users
    ≡ user (lit "ann") (lit "admin") ∷ []
unfolding handle lit str_eq
admin_deletes_runs = refl

user_may_not_delete :
    (handle plain draw (some (lit "u")) (delete_api_user (lit "ann")) accounts).0
    ≡ record { status = 403; cookie = none }
unfolding handle lit str_eq
user_may_not_delete = refl

-- The last user may go, and then the set-up is open again.
last_user_runs :
    (handle plain draw
      (some (lit "t"))
      (delete_api_user (lit "ann"))
      (record accounts { users = user (lit "ann") (lit "admin") ∷ [] })).1.users
    ≡ []
unfolding handle lit str_eq
last_user_runs = refl
