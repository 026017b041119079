-- ===== src/Examples/Accounts.antt =====
-- One admin with a password, a session and a link that resets it.
use sparks_effect_api.Prelude.{
  ℕ, [], ◌∷◌, none, some, Str, codes, Bool, true, false, ◌≡◌, refl, ok, arith, In, inl, inr, str_eq,
  str_eq_refl, length, has_row, update_where, delete_where, select,
}
use sparks_effect_api.Accounts.{
  UserRow, Session, Token, Accounts, PasswordChange, set_user_disabled, change_password,
  token_purpose_reset, delete_session, get_session_user, get_user_credentials_by_email,
  create_session, is_set,
}
use sparks_effect_api.Accounts.Tokens.{redeem_account_token, get_account_token}
use sparks_effect_api.Accounts.Authenticated.{IsSignedOut, set_user_disabled-IsSignedOut}
use sparks_effect_api.Accounts.Passwords.{UniqueIds, Outcome, change_password-Outcome}
use sparks_effect_api.Accounts.Redeemed.{UniqueHashes}
use sparks_effect_api.Accounts.Calls.{done, then_call, signs_out}
use sparks_effect_api.Accounts.Spent.{redeem_account_token-Calls}
use sparks_effect_api.Auth.{Crypto, decoded, answered, Outside, login, require_admin}
use sparks_effect_api.Auth.Admin.{patch_user_request}
use sparks_effect_api.Auth.Passes.{Presents, require_admin-Presents}
use sparks_effect_api.Auth.SignsIn.{IsSignedIn, login-IsSignedIn}
use sparks_effect_api.Auth.KeepsAdmin.{HasAdmin, patch_user_request-HasAdmin}
use sparks_effect_api.Auth.Links.{redeem_request}
use sparks_effect_api.Auth.Links.SetsPassword.{SetsPassword, redeem_request-SetsPassword}

abbrev id : Str
id = codes "u"

abbrev email : Str
email = codes "a@b"

abbrev old_password : Str
old_password = codes "the old password"

abbrev new_password : Str
new_password = codes "a better password"

-- A stand-in for the library: hashes are marked copies.
abbrev go : Crypto
go = record {
  equal_fold = str_eq;
  trim_space = λ s. s;
  to_lower = λ s. s;
  rune_count = λ s. length s;
  hash_token = λ s. b'#' ∷ s;
  compare_hash = λ h p. str_eq h (b'$' ∷ p);
  hash_password = λ p. some (b'$' ∷ p);
}

abbrev user : UserRow
user = record {
  id = id;
  email = email;
  name = [];
  is_admin = true;
  password_hash = b'$' ∷ old_password;
  created_at = 1;
  updated_at = 1;
  disabled_at = none;
}

abbrev session : Str → ℕ → Session
session token until = record {
  token_hash = b'#' ∷ token;
  user_id = id;
  created_at = 1;
  expires_at = until;
}

abbrev link : Token
link = record {
  token_hash = b'#' ∷ codes "link";
  user_id = id;
  purpose = token_purpose_reset;
  expires_at = 50;
  used_at = none;
}

abbrev accounts : Accounts
accounts = record {
  users = user ∷ [];
  sessions = session (codes "one") 40 ∷ [];
  tokens = link ∷ [];
}

unique_ids : UniqueIds accounts
unique_ids u v (inl p) (inl q) e = ground (arith, p, q)
unique_ids u v (inr p) m e = absurd p
unique_ids u v (inl p) (inr q) e = absurd q

unique_hashes : UniqueHashes accounts
unique_hashes s t (inl p) (inl q) e = ground (arith, p, q)
unique_hashes s t (inr p) m e = absurd p
unique_hashes s t (inl p) (inr q) e = absurd q

abbrev signed_out : Accounts
signed_out = record accounts {
  users = record user { disabled_at = some 9; updated_at = 9 } ∷ [];
  sessions = [];
}

disable_passes : set_user_disabled 9 id true accounts ≡ some signed_out
unfolding set_user_disabled str_eq has_row update_where delete_where
disable_passes = refl

set_user_disabled-IsSignedOut_example :
    IsSignedOut id signed_out
    × ((later : ℕ) (a : Accounts)
        → set_user_disabled later id false signed_out ≡ some a
        → IsSignedOut id a)
    × ((s : Session) → In s accounts.sessions → ¬ (s.user_id ≡ id) → In s signed_out.sessions)
set_user_disabled-IsSignedOut_example =
    set_user_disabled-IsSignedOut 9 id accounts signed_out disable_passes

abbrev change : PasswordChange
change = record {
  user_id = id;
  current_hash = b'$' ∷ old_password;
  new_hash = b'$' ∷ new_password;
  keep_token_hash = b'#' ∷ codes "one";
}

change_passes : (change_password 9 change accounts).0 ≡ true
unfolding change_password str_eq has_row
change_passes = refl

change_password-Outcome_example : Outcome 9 change accounts (change_password 9 change accounts)
change_password-Outcome_example = change_password-Outcome 9 change accounts unique_ids

abbrev redeemed : Accounts
redeemed = record {
  users = record user { password_hash = b'$' ∷ new_password; updated_at = 9 } ∷ [];
  sessions = record (session (codes "two") 109) { created_at = 9 } ∷ [];
  tokens = record link { used_at = some 9 } ∷ [];
}

abbrev redeemed_user : UserRow
redeemed_user = record user { password_hash = b'$' ∷ new_password; updated_at = 9 }

redeem_passes :
    redeem_account_token 9
      (b'#' ∷ codes "link")
      (b'$' ∷ new_password)
      (b'#' ∷ codes "two")
      109
      accounts
    ≡ ok (some (redeemed_user, redeemed))
unfolding redeem_account_token str_eq select is_set create_session has_row delete_where update_where
redeem_passes = refl

redeem_account_token-Calls_example :
    redeem_account_token 11
      (b'#' ∷ codes "link")
      (codes "x")
      (codes "y")
      12
      (delete_session (b'#' ∷ codes "two") redeemed)
    ≡ ok none
redeem_account_token-Calls_example =
    redeem_account_token-Calls 9 (b'#' ∷ codes "link") (b'$' ∷ new_password) (b'#' ∷ codes "two")
      109 accounts redeemed (delete_session (b'#' ∷ codes "two") redeemed) redeemed_user
      unique_hashes redeem_passes (then_call done (signs_out (b'#' ∷ codes "two"))) 11 (codes "x")
      (codes "y") 12

abbrev outside : Outside
outside = record { lookup_down = false; write_down = false; token = some (codes "two") }

abbrev signed_in : Accounts
signed_in = record accounts {
  sessions = record (session (codes "two") 109) { created_at = 9 } ∷ accounts.sessions;
}

login_passes :
    login go outside 9 100 (decoded (email, old_password)) accounts
    ≡ (answered 200 (codes "two", 109, user), signed_in)
unfolding login str_eq get_user_credentials_by_email select create_session has_row
login_passes = refl

login-IsSignedIn_example :
    IsSignedIn go 9 100 email old_password accounts signed_in (codes "two") user
login-IsSignedIn_example =
    login-IsSignedIn go 9 100 email old_password accounts signed_in outside (codes "two") 109 user
      unique_ids login_passes

require_admin_passes : require_admin go false 9 (codes "bearer one") accounts ≡ ok user
unfolding require_admin str_eq get_session_user select
require_admin_passes = refl

require_admin-Presents_example :
    Presents go 9 (codes "bearer one") accounts user × (user.is_admin ≡ true)
require_admin-Presents_example =
    require_admin-Presents go false 9 (codes "bearer one") accounts user require_admin_passes

fold_refl : (s : Str) → go.equal_fold s s ≡ true
fold_refl s = str_eq_refl s

patch_user_request-HasAdmin_example :
    HasAdmin id
      (patch_user_request go false 9
        (some user)
        id
        (decoded (record { is_admin = some false; disabled = none }))
        accounts).1
patch_user_request-HasAdmin_example =
    patch_user_request-HasAdmin go fold_refl false 9 user id
      (decoded (record { is_admin = some false; disabled = none })) accounts
      (record { row = user; stored = inl refl; same_id = refl; admin = refl; enabled = refl })

abbrev rare : Str → Bool
rare s = false

redeem_request_passes :
    redeem_request go rare outside (λ a. a) 9 100 (codes "link") (decoded new_password) accounts
    ≡ (answered 200 (codes "two", 109, redeemed_user), redeemed)
unfolding redeem_request str_eq get_account_token select is_set redeem_account_token create_session
    has_row delete_where update_where
redeem_request_passes = refl

redeem_request-SetsPassword_example :
    SetsPassword go rare 9 100 (codes "link") new_password (codes "two") accounts accounts redeemed
redeem_request-SetsPassword_example =
    redeem_request-SetsPassword go rare 9 100 (codes "link") new_password outside (λ a. a) accounts
      redeemed (codes "two") 109 redeemed_user unique_hashes redeem_request_passes
