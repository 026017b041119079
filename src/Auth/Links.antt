-- ===== src/Auth/Links.antt =====
-- internal/handler/accounttoken.go: the requests that issue, read and redeem one-time links.
pub mod SetsPassword
use sparks_effect_api.Prelude.{
  ℕ, ◌+◌, ◌*◌, [], ◌∷◌, ◌++◌, Option, none, some, Str, codes, Bool, ◌&&◌, ◌==◌, str_Eq, nat_Eq,
  if◌then◌else◌, ok, err,
}
use sparks_effect_api.Accounts.{
  UserRow, Token, Accounts, get_user_by_email, get_user_by_id, token_purpose_invite,
  token_purpose_reset,
}
use sparks_effect_api.Accounts.Tokens.{
  create_invite, create_reset_token, get_account_token, redeem_account_token,
}
use sparks_effect_api.Auth.{
  Crypto, Body, too_large, malformed, decoded, Reply, refused, invalid, answered, Outside,
  normalize_email, validate_password,
}

-- In seconds.
abbrev pub invite_ttl : ℕ
invite_ttl = 7 * 24 * 3600

abbrev pub reset_ttl : ℕ
reset_ttl = 3600

-- `strings.TrimRight(url, "/")`
unfoldable pub trim_slashes : Str → Str
trim_slashes [] = []
trim_slashes (c ∷ s) = let rest = trim_slashes s in if rest == [] && c == b'/' then [] else c ∷ rest

-- `setPasswordLink`, with `url.QueryEscape`.
unfoldable pub set_password_link : (Str → Str) → Str → Str → Str
unfolding trim_slashes
set_password_link escape website token =
    trim_slashes website ++ codes "/set-password?token=" ++ escape token

-- The body of an invite.
pub record InviteRequest : Type 0 where
  pub email : Str
  pub name : Str
  pub is_admin : Bool

module _ (go : Crypto) where
  unfoldable pub link : Str → Str → ℕ → Str → Token
  link token user_id ttl purpose = record {
    token_hash = go.hash_token token;
    user_id = user_id;
    purpose = purpose;
    expires_at = ttl;
    used_at = none;
  }

  -- `CreateInvite`: the user and the token of the link; `id` is what `ids.NewUUID` returns.
  unfoldable pub create_invite_request :
      Outside → ℕ → Option Str → Body InviteRequest → Accounts → Reply (UserRow × Str) × Accounts
  unfolding normalize_email link
  create_invite_request o now id too_large a = (refused 413, a)
  create_invite_request o now id malformed a = (refused 400, a)
  create_invite_request o now id (decoded req) a =
      let email = normalize_email go req.email in
      if email == []
      then (refused 400, a)
      else if o.lookup_down
      then (refused 500, a)
      else elim (get_user_by_email email a) [
        | some u ↦ (refused 409, a)
        | none ↦ elim id [
          | none ↦ (refused 500, a)
          | some user_id ↦ elim o.token [
            | none ↦ (refused 500, a)
            | some token ↦
                let u : UserRow = record {
                  id = user_id;
                  email = email;
                  name = go.trim_space req.name;
                  is_admin = req.is_admin;
                  password_hash = [];
                  created_at = now;
                  updated_at = now;
                  disabled_at = none;
                } in
                if o.write_down
                then (refused 500, a)
                else elim (create_invite now u
                    (link token user_id (now + invite_ttl) token_purpose_invite) a) [
                      | err e ↦ (refused 500, a)
                      | ok a' ↦ (answered 201 (u, token), a')
                    ]
          ]
        ]
      ]

  -- `CreateResetLink`, of the id of the path.
  unfoldable pub create_reset_link : Outside → ℕ → Str → Accounts → Reply Str × Accounts
  unfolding link
  create_reset_link o now id a =
      if o.lookup_down then (refused 500, a) else elim (get_user_by_id id a) [
        | none ↦ (refused 404, a)
        | some u ↦ elim o.token [
          | none ↦ (refused 500, a)
          | some token ↦
              if o.write_down
              then (refused 500, a)
              else elim (create_reset_token (link token u.id (now + reset_ttl) token_purpose_reset)
                  a) [ err e ↦ (refused 500, a) | ok a' ↦ (answered 201 token, a') ]
        ]
      ]

  -- `AccountToken`: the purpose, the email and the end of a link.
  unfoldable pub account_token : Bool → ℕ → Str → Accounts → Reply (Str × Str × ℕ)
  account_token down now token a =
      if down then refused 500 else elim (get_account_token now (go.hash_token token) a) [
        | none ↦ refused 404
        | some (t, u) ↦ answered 200 (t.purpose, u.email, t.expires_at)
      ]

  -- `RedeemAccountToken`, of the token of the path and the new password. `between` is what other
  -- requests do between the reading of the link and its claim.
  unfoldable pub redeem_request :
      (Str → Bool)
      → Outside
      → (Accounts → Accounts)
      → ℕ
      → ℕ
      → Str
      → Body Str
      → Accounts
      → Reply (Str × ℕ × UserRow) × Accounts
  unfolding validate_password
  redeem_request common o between now ttl token too_large a = (refused 413, a)
  redeem_request common o between now ttl token malformed a = (refused 400, a)
  redeem_request common o between now ttl token (decoded password) a =
      if o.lookup_down
      then (refused 500, a)
      else elim (get_account_token now (go.hash_token token) a) [
        | none ↦ (refused 404, a)
        | some (t, u) ↦ elim (validate_password go common password u.email) [
          | f ∷ fs ↦ (invalid (f ∷ fs), a)
          | [] ↦ elim (go.hash_password password) [
            | none ↦ (refused 500, a)
            | some hash ↦ elim o.token [
              | none ↦ (refused 500, a)
              | some session ↦
                  if o.write_down
                  then (refused 500, between a)
                  else elim (redeem_account_token now (go.hash_token token) hash
                      (go.hash_token session) (now + ttl) (between a)) [
                        | err e ↦ (refused 500, between a)
                        | ok none ↦ (refused 404, between a)
                        | ok (some (v, a')) ↦ (answered 200 (session, now + ttl, v), a')
                      ]
            ]
          ]
        ]
      ]
