-- ===== src/Accounts/Calls.antt =====
-- The calls that change users, sessions or links, and which of them leave the links alone.
use sparks_effect_api.Prelude.{
  ℕ, Option, none, some, Str, Bool, ◌≡◌, refl, ◌∙◌, inl, inr, Option-cases, arith, ok,
}
use sparks_effect_api.Accounts.{
  UserRow, Token, Accounts, PasswordChange, UserPatch, create_user, set_user_disabled, patch_user,
  update_user_name, change_password, create_session, flag_user, delete_session, patch_admin,
  patch_disabled, delete_user_sessions, delete_expired_sessions,
}
use sparks_effect_api.Accounts.Tokens.{create_invite, create_reset_token, redeem_account_token}

-- The calls that change users, sessions or links.
pub data Call : Accounts → Accounts → Type 0 where
  creates_user : {a a' : Accounts} (now : ℕ) (u : UserRow) → create_user now u a ≡ ok a' → Call a a'
  disables :
      {a a' : Accounts} (now : ℕ) (id : Str) (disabled : Bool)
      → set_user_disabled now id disabled a ≡ some a'
      → Call a a'
  patches :
      {a a' : Accounts} (now : ℕ) (id : Str) (patch : UserPatch) (u : UserRow)
      → patch_user now id patch a ≡ some (u, a')
      → Call a a'
  renames :
      {a a' : Accounts} (now : ℕ) (id name : Str) (u : UserRow)
      → update_user_name now id name a ≡ some (u, a')
      → Call a a'
  changes_password :
      {a : Accounts} (now : ℕ) (c : PasswordChange) → Call a (change_password now c a).1
  signs_in :
      {a a' : Accounts} (now : ℕ) (token_hash id : Str) (until : ℕ)
      → create_session now token_hash id until a ≡ ok a'
      → Call a a'
  signs_out : {a : Accounts} (token_hash : Str) → Call a (delete_session token_hash a)
  signs_out_everywhere : {a : Accounts} (id : Str) → Call a (delete_user_sessions id a)
  expires : {a : Accounts} (now : ℕ) → Call a (delete_expired_sessions now a)
  invites :
      {a a' : Accounts} (now : ℕ) (u : UserRow) (t : Token)
      → create_invite now u t a ≡ ok a'
      → Call a a'
  issues_reset : {a a' : Accounts} (t : Token) → create_reset_token t a ≡ ok a' → Call a a'
  redeems :
      {a a' : Accounts} (now : ℕ) (h pw sh : Str) (until : ℕ) (u : UserRow)
      → redeem_account_token now h pw sh until a ≡ ok (some (u, a'))
      → Call a a'

pub data Calls (a : Accounts) : Accounts → Type 0 where
  done : Calls a a
  then_call : {b c : Accounts} → Calls a b → Call b c → Calls a c

-- The calls on users and sessions leave the links alone.
pub create_user-tokens :
    (now : ℕ) (u : UserRow) (a a' : Accounts) → create_user now u a ≡ ok a' → a'.tokens ≡ a.tokens
unfolding create_user
create_user-tokens now u a a' h = ground arith

pub set_user_disabled-tokens :
    (now : ℕ) (id : Str) (disabled : Bool) (a a' : Accounts)
    → set_user_disabled now id disabled a ≡ some a'
    → a'.tokens ≡ a.tokens
unfolding set_user_disabled flag_user delete_user_sessions
set_user_disabled-tokens now id disabled a a' h = ground arith

patch_admin-tokens :
    (now : ℕ) (id : Str) (admin : Option Bool) (a : Accounts)
    → (patch_admin now id admin a).tokens ≡ a.tokens
unfolding patch_admin
patch_admin-tokens now id none a = refl
patch_admin-tokens now id (some admin) a = refl

patch_disabled-tokens :
    (now : ℕ) (id : Str) (disabled : Option Bool) (a : Accounts)
    → (patch_disabled now id disabled a).tokens ≡ a.tokens
unfolding patch_disabled
patch_disabled-tokens now id none a = refl
patch_disabled-tokens now id (some disabled) a =
    elim (Option-cases (set_user_disabled now id disabled a)) [
      | inl missing ↦ rw (patch_disabled, missing) refl
      | inr (b, found) ↦
          rw (patch_disabled, found) (set_user_disabled-tokens now id disabled a b found)
    ]

-- What a successful patch has written.
pub patch_user-eq-some :
    (now : ℕ) (id : Str) (patch : UserPatch) (u : UserRow) (a a' : Accounts)
    → patch_user now id patch a ≡ some (u, a')
    → a' ≡ patch_disabled now id patch.disabled (patch_admin now id patch.is_admin a)
unfolding patch_user
patch_user-eq-some now id patch u a a' h = ground arith

pub patch_user-tokens :
    (now : ℕ) (id : Str) (patch : UserPatch) (u : UserRow) (a a' : Accounts)
    → patch_user now id patch a ≡ some (u, a')
    → a'.tokens ≡ a.tokens
patch_user-tokens now id patch u a a' h = rw (patch_user-eq-some now id patch u a a' h) (
    patch_disabled-tokens now id patch.disabled (patch_admin now id patch.is_admin a)
    ∙ patch_admin-tokens now id patch.is_admin a)

pub update_user_name-tokens :
    (now : ℕ) (id name : Str) (u : UserRow) (a a' : Accounts)
    → update_user_name now id name a ≡ some (u, a')
    → a'.tokens ≡ a.tokens
unfolding update_user_name
update_user_name-tokens now id name u a a' h = ground arith

pub change_password-tokens :
    (now : ℕ) (c : PasswordChange) (a : Accounts) → (change_password now c a).1.tokens ≡ a.tokens
unfolding change_password
change_password-tokens now c a = ground arith

pub create_session-tokens :
    (now : ℕ) (h id : Str) (until : ℕ) (a a' : Accounts)
    → create_session now h id until a ≡ ok a'
    → a'.tokens ≡ a.tokens
unfolding create_session
create_session-tokens now h id until a a' e = ground arith
