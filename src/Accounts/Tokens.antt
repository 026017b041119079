-- ===== src/Accounts/Tokens.antt =====
-- internal/persistence/postgres/accounttoken.go: issuing, reading and redeeming the one-time links.
use sparks_effect_api.Prelude.{
  ℕ, [], ◌∷◌, Option, none, some, Str, Bool, not, ◌&&◌, ltb, ◌==◌, str_Eq, if◌then◌else◌, Result,
  ok, err, ◌>>=◌, select, update_where, delete_where, has_row,
}
use sparks_effect_api.Accounts.{
  UserRow, Token, Accounts, AccountError, duplicate, no_user, is_set, is_user, create_user,
  delete_user_sessions, create_session, token_purpose_reset,
}

unfoldable pub insert_token : Token → Accounts → Result AccountError Accounts
insert_token t a =
    if has_row (λ (s : Token). s.token_hash == t.token_hash) a.tokens
    then err duplicate
    else if not (has_row (is_user t.user_id) a.users)
    then err no_user
    else ok (record a { tokens = record t { used_at = none } ∷ a.tokens })

unfoldable pub create_invite : ℕ → UserRow → Token → Accounts → Result AccountError Accounts
unfolding insert_token
create_invite now u t a =
    create_user now (record u { password_hash = [] }) a
    >>= insert_token (record t { user_id = u.id })

unfoldable pub is_unused_reset : Str → Token → Bool
is_unused_reset user_id t =
    t.user_id == user_id && t.purpose == token_purpose_reset && not (is_set t.used_at)

unfoldable pub create_reset_token : Token → Accounts → Result AccountError Accounts
unfolding insert_token is_unused_reset
create_reset_token t a =
    insert_token (record t { purpose = token_purpose_reset })
      (record a { tokens = delete_where (is_unused_reset t.user_id) a.tokens })

-- `liveAccountToken`, of a link and of its user.
unfoldable pub is_unused : ℕ → Str → Token → Bool
is_unused now token_hash t =
    t.token_hash == token_hash && not (is_set t.used_at) && ltb now t.expires_at

unfoldable pub is_enabled : Str → UserRow → Bool
is_enabled id u = u.id == id && not (is_set u.disabled_at)

unfoldable pub get_account_token : ℕ → Str → Accounts → Option (Token × UserRow)
unfolding is_unused is_enabled
get_account_token now token_hash a = elim (select (is_unused now token_hash) a.tokens) [
  | none ↦ none
  | some t ↦ elim (select (is_enabled t.user_id) a.users) [ none ↦ none | some u ↦ some (t, u) ]
]

-- The writes of `RedeemAccountToken` after the claim, up to the new session.
unfoldable pub claimed : ℕ → Str → Str → Str → Accounts → Accounts
unfolding delete_user_sessions
claimed now token_hash password_hash user_id a = delete_user_sessions user_id (record a {
  users =
      update_where (is_user user_id)
        (λ u. record u { password_hash = password_hash; updated_at = now }) a.users;
  tokens =
      delete_where (λ (t : Token). t.user_id == user_id && not (is_set t.used_at))
        (update_where (is_unused now token_hash) (λ t. record t { used_at = some now }) a.tokens);
})

-- `RedeemAccountToken`: nothing is found, or the user with the accounts, or a refused session.
unfoldable pub redeem_account_token :
    ℕ → Str → Str → Str → ℕ → Accounts → Result AccountError (Option (UserRow × Accounts))
unfolding get_account_token claimed
redeem_account_token now token_hash password_hash session_hash expires_at a =
    elim (get_account_token now token_hash a) [
      | none ↦ ok none
      | some (t, u) ↦
          create_session now session_hash t.user_id expires_at
            (claimed now token_hash password_hash t.user_id a)
          >>= λ a'. ok (some (record u { password_hash = password_hash; updated_at = now }, a'))
    ]
