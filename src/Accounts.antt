-- ===== src/Accounts.antt =====
-- internal/account/account.go, the users and sessions of internal/persistence/postgres/postgres.go
-- and internal/persistence/postgres/accounttoken.go: accounts, their sessions and the one-time links
-- that set a password.
pub mod Tokens
pub mod Authenticated
pub mod Passwords
pub mod Redeemed
pub mod Calls
pub mod Spent
use sparks_effect_api.Prelude.{
  ℕ, List, ◌∷◌, Option, none, some, Str, codes, Bool, true, false, not, ◌&&◌, ◌||◌, ltb, leb, ◌==◌,
  str_Eq, if◌then◌else◌, Result, ok, err, select, update_where, delete_where, has_row,
}

-- A row of users: `account.User` with the stored hash.
pub record UserRow : Type 0 where
  pub id : Str
  pub email : Str
  pub name : Str
  pub is_admin : Bool
  pub password_hash : Str
  pub created_at : ℕ
  pub updated_at : ℕ
  pub disabled_at : Option ℕ

pub record Session : Type 0 where
  pub token_hash : Str
  pub user_id : Str
  pub created_at : ℕ
  pub expires_at : ℕ

pub record Token : Type 0 where
  pub token_hash : Str
  pub user_id : Str
  pub purpose : Str
  pub expires_at : ℕ
  pub used_at : Option ℕ

pub record UserPatch : Type 0 where
  pub is_admin : Option Bool
  pub disabled : Option Bool

pub record PasswordChange : Type 0 where
  pub user_id : Str
  pub current_hash : Str
  pub new_hash : Str
  pub keep_token_hash : Str

abbrev pub token_purpose_invite : Str
token_purpose_invite = codes "invite"

abbrev pub token_purpose_reset : Str
token_purpose_reset = codes "reset"

pub record Accounts : Type 0 where
  pub users : List UserRow
  pub sessions : List Session
  pub tokens : List Token

-- A row that a key of the tables refuses: the primary keys and the unique email, and the users that
-- sessions and links point to.
pub data AccountError : Type 0 where
  duplicate : AccountError
  no_user : AccountError

unfoldable pub is_set : Option ℕ → Bool
is_set none = false
is_set (some t) = true

-- `COALESCE(disabled_at, now())`
unfoldable pub coalesce : Option ℕ → ℕ → Option ℕ
coalesce none now = some now
coalesce (some t) now = some t

unfoldable pub is_user : Str → UserRow → Bool
is_user id u = u.id == id

unfoldable pub create_user : ℕ → UserRow → Accounts → Result AccountError Accounts
unfolding is_user
create_user now u a =
    if has_row (λ (v : UserRow). v.id == u.id || v.email == u.email) a.users
    then err duplicate
    else ok (record a {
      users = record u { created_at = now; updated_at = now; disabled_at = none } ∷ a.users;
    })

-- The row carries the hash that the source returns beside the user.
unfoldable pub get_user_credentials_by_email : Str → Accounts → Option UserRow
unfolding is_set
get_user_credentials_by_email email a =
    select (λ (u : UserRow). u.email == email && not (is_set u.disabled_at)) a.users

unfoldable pub get_user_by_id : Str → Accounts → Option UserRow
unfolding is_user
get_user_by_id id a = select (is_user id) a.users

unfoldable pub get_user_by_email : Str → Accounts → Option UserRow
get_user_by_email email a = select (λ (u : UserRow). u.email == email) a.users

unfoldable pub delete_user_sessions : Str → Accounts → Accounts
delete_user_sessions id a = record a {
  sessions = delete_where (λ (s : Session). s.user_id == id) a.sessions;
}

unfoldable pub with_disabled : ℕ → Bool → UserRow → UserRow
unfolding coalesce
with_disabled now disabled u =
    if disabled
    then record u { disabled_at = coalesce u.disabled_at now; updated_at = now }
    else record u { disabled_at = none; updated_at = now }

-- The update of `setUserDisabled`.
unfoldable pub flag_user : ℕ → Str → Bool → Accounts → Accounts
unfolding is_user with_disabled
flag_user now id disabled a = record a {
  users = update_where (is_user id) (with_disabled now disabled) a.users;
}

-- `setUserDisabled`: no accounts if no row has the id.
unfoldable pub set_user_disabled : ℕ → Str → Bool → Accounts → Option Accounts
unfolding flag_user delete_user_sessions
set_user_disabled now id disabled a =
    if not (has_row (is_user id) a.users)
    then none
    else if disabled
    then some (delete_user_sessions id (flag_user now id disabled a))
    else some (flag_user now id disabled a)

unfoldable pub patch_admin : ℕ → Str → Option Bool → Accounts → Accounts
unfolding is_user
patch_admin now id none a = a
patch_admin now id (some admin) a = record a {
  users = update_where (is_user id) (λ u. record u { is_admin = admin; updated_at = now }) a.users;
}

unfoldable pub patch_disabled : ℕ → Str → Option Bool → Accounts → Accounts
unfolding set_user_disabled
patch_disabled now id none a = a
patch_disabled now id (some disabled) a = elim (set_user_disabled now id disabled a) [
  | none ↦ a
  | some a' ↦ a'
]

unfoldable pub patch_user : ℕ → Str → UserPatch → Accounts → Option (UserRow × Accounts)
unfolding get_user_by_id patch_admin patch_disabled
patch_user now id patch a =
    if not (has_row (is_user id) a.users)
    then none
    else let patched = patch_disabled now id patch.disabled (patch_admin now id patch.is_admin a) in
      elim (get_user_by_id id patched) [ none ↦ none | some u ↦ some (u, patched) ]

unfoldable pub update_user_name : ℕ → Str → Str → Accounts → Option (UserRow × Accounts)
unfolding get_user_by_id is_set
update_user_name now id name a =
    let named = record a {
      users =
          update_where (λ (u : UserRow). u.id == id && not (is_set u.disabled_at))
            (λ u. record u { name = name; updated_at = now }) a.users;
    } in
    if has_row (λ (u : UserRow). u.id == id && not (is_set u.disabled_at)) a.users
    then elim (get_user_by_id id named) [ none ↦ none | some u ↦ some (u, named) ]
    else none

-- The row that `ChangePassword` updates, if the presenting session is live.
unfoldable pub may_change : PasswordChange → UserRow → Bool
unfolding is_set
may_change c u =
    u.id == c.user_id && u.password_hash == c.current_hash && not (is_set u.disabled_at)

unfoldable pub keeps_live : ℕ → PasswordChange → Session → Bool
keeps_live now c s =
    s.token_hash == c.keep_token_hash && s.user_id == c.user_id && ltb now s.expires_at

unfoldable pub change_password : ℕ → PasswordChange → Accounts → Bool × Accounts
unfolding may_change keeps_live
change_password now c a =
    if has_row (may_change c) a.users && has_row (keeps_live now c) a.sessions
    then (
      true,
      record a {
        users =
            update_where (may_change c)
              (λ u. record u { password_hash = c.new_hash; updated_at = now }) a.users;
        sessions =
            delete_where
              (λ (s : Session). s.user_id == c.user_id && not (s.token_hash == c.keep_token_hash))
              a.sessions;
      },
    )
    else (false, a)

unfoldable pub create_session : ℕ → Str → Str → ℕ → Accounts → Result AccountError Accounts
unfolding is_user
create_session now token_hash user_id expires_at a =
    if has_row (λ (s : Session). s.token_hash == token_hash) a.sessions
    then err duplicate
    else if not (has_row (is_user user_id) a.users)
    then err no_user
    else let session : Session = record {
      token_hash = token_hash;
      user_id = user_id;
      created_at = now;
      expires_at = expires_at;
    } in
      ok (record a { sessions = session ∷ a.sessions })

-- The join of a session with its enabled user.
unfoldable pub is_live_session : ℕ → Str → Session → Bool
is_live_session now token_hash s = s.token_hash == token_hash && ltb now s.expires_at

unfoldable pub get_session_user : ℕ → Str → Accounts → Option UserRow
unfolding is_live_session is_set
get_session_user now token_hash a = elim (select (is_live_session now token_hash) a.sessions) [
  | none ↦ none
  | some s ↦ select (λ (u : UserRow). u.id == s.user_id && not (is_set u.disabled_at)) a.users
]

unfoldable pub delete_session : Str → Accounts → Accounts
delete_session token_hash a = record a {
  sessions = delete_where (λ (s : Session). s.token_hash == token_hash) a.sessions;
}

unfoldable pub delete_expired_sessions : ℕ → Accounts → Accounts
delete_expired_sessions now a = record a {
  sessions = delete_where (λ (s : Session). leb s.expires_at now) a.sessions;
}
