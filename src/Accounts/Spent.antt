-- ===== src/Accounts/Spent.antt =====
-- internal/persistence/postgres/accounttoken.go: a link that was redeemed is never redeemed again.
use sparks_effect_api.Prelude.{
  ℕ, List, [], ◌∷◌, Option, none, some, Str, Bool, true, false, not, ◌&&◌, ◌≡◌, refl, ap, sym,
  subst, In, inl, inr, str_eq_iff, Bool-cases, Option-cases, update_where, select, select-none,
  delete_where, delete_where-In, In-delete_where, arith, ◌==◌, str_Eq, has_row, has_row-In, ◌∙◌,
  missed, hit, update_where-IsUpdated, In-update_where, update_where-In, ok, ok-eq-ok, err-eq-ok,
  >>=-eq-ok,
}
use sparks_effect_api.Accounts.{
  UserRow, Token, Accounts, AccountError, duplicate, no_user, is_set, is_user, token_purpose_reset,
  create_user, delete_session, delete_user_sessions, delete_expired_sessions,
}
use sparks_effect_api.Accounts.Tokens.{
  create_invite, create_reset_token, insert_token, get_account_token, redeem_account_token, claimed,
  is_unused, is_unused_reset,
}
use sparks_effect_api.Accounts.Redeemed.{
  UniqueHashes, redeem_account_token-IsRedeemed, redeem_account_token-Claims, IsLive,
  get_account_token-IsLive,
}
use sparks_effect_api.Accounts.Calls.{
  Call, Calls, creates_user, disables, patches, renames, changes_password, signs_in, signs_out,
  signs_out_everywhere, expires, invites, issues_reset, redeems, done, then_call,
  create_user-tokens, set_user_disabled-tokens, patch_user-tokens, update_user_name-tokens,
  change_password-tokens, create_session-tokens,
}

-- The table has a row for the link, and every such row is used.
pub record IsSpent (h : Str) (ts : List Token) : Type 0 where
  pub row : Token
  pub stored : In row ts
  pub of_link : row.token_hash ≡ h
  pub used : (t : Token) → In t ts → t.token_hash ≡ h → ¬ (t.used_at ≡ none)

-- A deletion of unused links leaves a spent one.
delete_where-IsSpent :
    (h : Str) (p : Token → Bool) (ts : List Token)
    → ((t : Token) → ¬ (t.used_at ≡ none) → p t ≡ false)
    → IsSpent h ts
    → IsSpent h (delete_where p ts)
delete_where-IsSpent h p ts unused s = record {
  row = s.row;
  stored = In-delete_where p ts s.row s.stored (unused s.row (s.used s.row s.stored s.of_link));
  of_link = s.of_link;
  used = λ t i e. s.used t (delete_where-In p ts t i).0 e;
}

insert_token-IsSpent :
    (h : Str) (t : Token) (a a' : Accounts)
    → IsSpent h a.tokens
    → insert_token t a ≡ ok a'
    → IsSpent h a'.tokens
unfolding insert_token
insert_token-IsSpent h t a a' s e =
    let p = λ (r : Token). r.token_hash == t.token_hash in
    elim (Bool-cases (has_row p a.tokens)) [
      | inl taken ↦ err-eq-ok duplicate a' (rw (taken, insert_token) at e)
      | inr free ↦ elim (Bool-cases (has_row (is_user t.user_id) a.users)) [
        | inr missing ↦ err-eq-ok no_user a' (rw (free, missing, insert_token) at e)
        | inl user ↦
            let same : record a { tokens = record t { used_at = none } ∷ a.tokens } ≡ a' =
              ok-eq-ok {E = AccountError} (rw (free, user, insert_token) at e) in
            let other : ¬ (t.token_hash ≡ h) = λ k.
              let z : has_row p a.tokens ≡ true =
                has_row-In p a.tokens s.row s.stored
                  (ground (arith, k, s.of_link, str_eq_iff s.row.token_hash t.token_hash)) in
              cc in
            let spent : IsSpent h (record t { used_at = none } ∷ a.tokens) = record {
              row = s.row;
              stored = inr s.stored;
              of_link = s.of_link;
              used = λ r i k. elim i [
                | inl new ↦ absurd (other (sym (ap (λ (y : Token). y.token_hash) new) ∙ k))
                | inr old ↦ s.used r old k
              ];
            } in
            subst (λ (b : Accounts). IsSpent h b.tokens) same spent
      ]
    ]

claimed-IsSpent :
    (now : ℕ) (h k pw id : Str) (a : Accounts)
    → IsSpent h a.tokens
    → IsSpent h (claimed now k pw id a).tokens
unfolding claimed is_unused is_set delete_user_sessions
claimed-IsSpent now h k pw id a s =
    let f = λ (t : Token). record t { used_at = some now } in
    let updated : IsSpent h (update_where (is_unused now k) f a.tokens) = record {
      row = s.row;
      stored =
          In-update_where (is_unused now k) f a.tokens s.row s.stored
            (not_unused s.row (s.used s.row s.stored s.of_link));
      of_link = s.of_link;
      used = λ t i e. elim (update_where-IsUpdated (is_unused now k) f a.tokens t i) [
        | missed old off ↦ s.used t old e
        | hit x j at r ↦
            λ unused. let z : some now ≡ none = sym (ap (λ (y : Token). y.used_at) r) ∙ unused in cc
      ];
    } in
    delete_where-IsSpent h (λ (t : Token). t.user_id == id && not (is_set t.used_at))
      (update_where (is_unused now k) f a.tokens)
      (λ t used. by_use t.used_at (t.user_id == id) used) updated
  where
    by_use : (o : Option ℕ) (b : Bool) → ¬ (o ≡ none) → (b && not (is_set o)) ≡ false
    by_use none b used = absurd (used refl)
    by_use (some x) true used = refl
    by_use (some x) false used = refl

    not_unused : (t : Token) → ¬ (t.used_at ≡ none) → is_unused now k t ≡ false
    not_unused t used = elim (Option-cases t.used_at) [
      | inl e ↦ absurd (used e)
      | inr (x, e) ↦ ground (arith, e)
    ]

create_reset_token-IsSpent :
    (h : Str) (t : Token) (a a' : Accounts)
    → IsSpent h a.tokens
    → create_reset_token t a ≡ ok a'
    → IsSpent h a'.tokens
unfolding create_reset_token is_unused_reset is_set
create_reset_token-IsSpent h t a a' s e =
    let p = is_unused_reset t.user_id in
    insert_token-IsSpent h (record t { purpose = token_purpose_reset })
      (record a { tokens = delete_where p a.tokens }) a'
      (delete_where-IsSpent h p a.tokens
        (λ r used. elim (Option-cases r.used_at) [
          | inl unused ↦ absurd (used unused)
          | inr (x, was) ↦ ground (arith, was)
        ])
        s)
      e

redeem_account_token-IsSpent :
    (h : Str) (now : ℕ) (k pw sh : Str) (until : ℕ) (u : UserRow) (a a' : Accounts)
    → IsSpent h a.tokens
    → redeem_account_token now k pw sh until a ≡ ok (some (u, a'))
    → IsSpent h a'.tokens
redeem_account_token-IsSpent h now k pw sh until u a a' s e =
    let c = redeem_account_token-Claims now k pw sh until a a' u e in
    subst (λ (b : Accounts). IsSpent h b.tokens) c.written
      (claimed-IsSpent now h k pw c.link.user_id a s)

create_invite-IsSpent :
    (h : Str) (now : ℕ) (u : UserRow) (t : Token) (a a' : Accounts)
    → IsSpent h a.tokens
    → create_invite now u t a ≡ ok a'
    → IsSpent h a'.tokens
unfolding create_invite
create_invite-IsSpent h now u t a a' s e =
    let (b, made, put) =
      >>=-eq-ok (create_user now (record u { password_hash = [] }) a)
        (insert_token (record t { user_id = u.id })) e in
    insert_token-IsSpent h (record t { user_id = u.id }) b a'
      (rw (create_user-tokens now (record u { password_hash = [] }) a b made) s) put

Call-IsSpent : (h : Str) {a a' : Accounts} → Call a a' → IsSpent h a.tokens → IsSpent h a'.tokens
Call-IsSpent h {a} {a'} (creates_user now u e) s = rw (create_user-tokens now u a a' e) s
Call-IsSpent h {a} {a'} (disables now id d e) s = rw (set_user_disabled-tokens now id d a a' e) s
Call-IsSpent h {a} {a'} (patches now id p u e) s = rw (patch_user-tokens now id p u a a' e) s
Call-IsSpent h {a} {a'} (renames now id n u e) s = rw (update_user_name-tokens now id n u a a' e) s
Call-IsSpent h {a} (changes_password now c) s = rw (change_password-tokens now c a) s
Call-IsSpent h {a} {a'} (signs_in now k id until e) s =
    rw (create_session-tokens now k id until a a' e) s
Call-IsSpent h (signs_out k) s = unfold delete_session in s
Call-IsSpent h (signs_out_everywhere id) s = unfold delete_user_sessions in s
Call-IsSpent h (expires now) s = unfold delete_expired_sessions in s
Call-IsSpent h {a} {a'} (invites now u t e) s = create_invite-IsSpent h now u t a a' s e
Call-IsSpent h {a} {a'} (issues_reset t e) s = create_reset_token-IsSpent h t a a' s e
Call-IsSpent h {a} {a'} (redeems now k pw sh until u e) s =
    redeem_account_token-IsSpent h now k pw sh until u a a' s e

Calls-IsSpent : (h : Str) {a a' : Accounts} → IsSpent h a.tokens → Calls a a' → IsSpent h a'.tokens
Calls-IsSpent h s done = s
Calls-IsSpent h s (then_call cs c) = Call-IsSpent h c (Calls-IsSpent h s cs)

-- A spent link is not found.
IsSpent-none :
    (h : Str) (now : ℕ) (a : Accounts) → IsSpent h a.tokens → get_account_token now h a ≡ none
unfolding get_account_token is_unused is_set
IsSpent-none h now a s =
    let z : select (is_unused now h) a.tokens ≡ none =
      select-none (is_unused now h) a.tokens (λ t i. elim (Option-cases t.used_at) [
        | inr (x, was) ↦ ground (arith, was)
        | inl unused ↦
            let other : ¬ (t.token_hash ≡ h) = λ e. s.used t i e unused in
            ground (arith, str_eq_iff t.token_hash h)
      ]) in
    rw (get_account_token, z) refl

-- The row of a link stays when it is redeemed.
redeemed_stays :
    (now : ℕ) (h pw : Str) (a : Accounts) (t : Token) (u : UserRow)
    → IsLive now h a t u
    → In (record t { used_at = some now }) (claimed now h pw t.user_id a).tokens
unfolding claimed is_unused is_set delete_user_sessions
redeemed_stays now h pw a t u live =
    let f = λ (t : Token). record t { used_at = some now } in
    In-delete_where (λ (r : Token). r.user_id == t.user_id && not (is_set r.used_at))
      (update_where (is_unused now h) f a.tokens) (f t)
      (update_where-In (is_unused now h) f a.tokens t live.stored
        (ground (arith, live.presented, live.unused, live.unexpired, str_eq_iff t.token_hash h)))
      (ground arith)

-- A link that was redeemed is never redeemed again: after any further calls, a redeem of it finds
-- nothing.
pub redeem_account_token-Calls :
    (now : ℕ) (h pw sh : Str) (until : ℕ) (a a' b : Accounts) (u : UserRow)
    → UniqueHashes a
    → redeem_account_token now h pw sh until a ≡ ok (some (u, a'))
    → Calls a' b
    → (later : ℕ) (pw' sh' : Str) (until' : ℕ)
    → redeem_account_token later h pw' sh' until' b ≡ ok none
unfolding redeem_account_token
redeem_account_token-Calls now h pw sh until a a' b u unique e calls later pw' sh' until' =
    let (t, v, live, after) = redeem_account_token-IsRedeemed now h pw sh until a a' u unique e in
    let c = redeem_account_token-Claims now h pw sh until a a' u e in
    let on = get_account_token-IsLive now h a c.link c.user c.found in
    let stays = redeemed_stays now h pw a c.link c.user on in
    let spent : IsSpent h a'.tokens = record {
      row = record c.link { used_at = some now };
      stored =
          subst (λ (x : Accounts). In (record c.link { used_at = some now }) x.tokens) c.written
            stays;
      of_link = on.presented;
      used = after.spent;
    } in
    rw (redeem_account_token, IsSpent-none h later b (Calls-IsSpent h spent calls)) refl
