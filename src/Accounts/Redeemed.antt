-- ===== src/Accounts/Redeemed.antt =====
-- internal/persistence/postgres/accounttoken.go: what redeeming a link leaves.
use sparks_effect_api.Prelude.{
  ℕ, ◌∷◌, Option, none, some, Str, not, ◌&&◌, ◌<◌, ◌≡◌, refl, ap, sym, subst, In, inl, inr,
  str_eq_iff, Bool-cases, Option-cases, update_where, select, select-In, select-holds,
  delete_where-In, In-delete_where, arith, ◌==◌, str_Eq, has_row, ◌∙◌, missed, hit,
  update_where-IsUpdated, ok, Result-cases, ok-eq-ok, err-eq-ok,
}
use sparks_effect_api.Accounts.{
  UserRow, Session, Token, Accounts, AccountError, duplicate, no_user, is_set, is_user,
  create_session, delete_user_sessions,
}
use sparks_effect_api.Accounts.Tokens.{
  get_account_token, redeem_account_token, claimed, is_unused, is_enabled,
}

-- A link that can be redeemed: unused, not expired, of an enabled user.
pub record IsLive (now : ℕ) (token_hash : Str) (a : Accounts) (t : Token) (u : UserRow)
    : Type 0 where
  pub stored : In t a.tokens
  pub presented : t.token_hash ≡ token_hash
  pub unused : t.used_at ≡ none
  pub unexpired : now < t.expires_at
  pub user : In u a.users
  pub of_user : u.id ≡ t.user_id
  pub enabled : u.disabled_at ≡ none

pub get_account_token-IsLive :
    (now : ℕ) (token_hash : Str) (a : Accounts) (t : Token) (u : UserRow)
    → get_account_token now token_hash a ≡ some (t, u)
    → IsLive now token_hash a t u
unfolding get_account_token is_unused is_enabled is_set
get_account_token-IsLive now token_hash a t u h =
    elim (Option-cases (select (is_unused now token_hash) a.tokens)) [
      | inl miss ↦
          let z : ◌≡◌ {A = Option (Token × UserRow)} none (some (t, u)) =
            rw (miss, get_account_token) at h in
          absurd (cc)
      | inr (s, found) ↦ elim (Option-cases (select (is_enabled s.user_id) a.users)) [
        | inl gone ↦
            let z : ◌≡◌ {A = Option (Token × UserRow)} none (some (t, u)) =
              rw (found, get_account_token, gone) at h in
            absurd (cc)
        | inr (v, on) ↦
            let z : ◌≡◌ {A = Option (Token × UserRow)} (some (s, v)) (some (t, u)) =
              rw (found, get_account_token, on) at h in
            let p : s ≡ t = cc in
            let q : v ≡ u = cc in
            let found' : select (is_unused now token_hash) a.tokens ≡ some t = rw (← p) found in
            let on' : select (is_enabled t.user_id) a.users ≡ some u = rw (← p, ← q) on in
            let at = select-holds (is_unused now token_hash) a.tokens t found' in
            let as_user = select-holds (is_enabled t.user_id) a.users u on' in
            record {
              stored = select-In (is_unused now token_hash) a.tokens t found';
              presented = ground (arith, str_eq_iff t.token_hash token_hash);
              unused = ground arith;
              unexpired = ground arith;
              user = select-In (is_enabled t.user_id) a.users u on';
              of_user = ground (arith, str_eq_iff u.id t.user_id);
              enabled = ground arith;
            }
      ]
    ]

-- After a redeem of a link of the user `id`.
pub record IsRedeemed (token_hash password_hash session_hash id : Str) (a a' : Accounts)
    : Type 0 where
  pub password : (u : UserRow) → In u a'.users → u.id ≡ id → u.password_hash ≡ password_hash
  pub others_passwords : (u : UserRow) → In u a'.users → ¬ (u.id ≡ id) → In u a.users
  pub only_session : (s : Session) → In s a'.sessions → s.user_id ≡ id → s.token_hash ≡ session_hash
  pub other_sessions : (s : Session) → In s a.sessions → ¬ (s.user_id ≡ id) → In s a'.sessions
  pub no_link_left : (t : Token) → In t a'.tokens → t.user_id ≡ id → ¬ (t.used_at ≡ none)
  pub spent : (t : Token) → In t a'.tokens → t.token_hash ≡ token_hash → ¬ (t.used_at ≡ none)

-- The session that a successful insert adds.
pub create_session-eq-ok :
    (now : ℕ) (h id : Str) (until : ℕ) (a a' : Accounts)
    → create_session now h id until a ≡ ok a'
    → (s : Session) × (s.token_hash ≡ h)
      × (s.user_id ≡ id)
      × (s.expires_at ≡ until)
      × (a' ≡ record a { sessions = s ∷ a.sessions })
unfolding create_session
create_session-eq-ok now h id until a a' e =
    let s : Session = record {
      token_hash = h;
      user_id = id;
      created_at = now;
      expires_at = until;
    } in
    elim (Bool-cases (has_row (λ (s : Session). s.token_hash == h) a.sessions)) [
      | inl taken ↦ err-eq-ok duplicate a' (rw (taken, create_session) at e)
      | inr free ↦ elim (Bool-cases (has_row (is_user id) a.users)) [
        | inl user ↦ (
          s,
          refl,
          refl,
          refl,
          sym (ok-eq-ok {E = AccountError} (rw (free, user, create_session) at e)),
        )
        | inr missing ↦ err-eq-ok no_user a' (rw (free, missing, create_session) at e)
      ]
    ]

module _ (now : ℕ) (token_hash password_hash session_hash id : Str) (a : Accounts) (s : Session)
    (fresh : s.token_hash ≡ session_hash)
    (owner : (t : Token) → In t a.tokens → t.token_hash ≡ token_hash → t.user_id ≡ id) where
  after_claim : Accounts
  after_claim =
      let b = claimed now token_hash password_hash id a in record b { sessions = s ∷ b.sessions }

  spend : Token → Token
  spend t = record t { used_at = some now }

  claimed-IsRedeemed : IsRedeemed token_hash password_hash session_hash id a after_claim
  unfolding after_claim claimed is_user is_unused is_set spend delete_user_sessions
  claimed-IsRedeemed =
      let f = λ (u : UserRow). record u { password_hash = password_hash; updated_at = now } in
      let p = λ (t : Token). t.user_id == id && not (is_set t.used_at) in
      let q = λ (s : Session). s.user_id == id in
      let updated = update_where (is_unused now token_hash) spend a.tokens in
      record {
        password = λ u i e. elim (update_where-IsUpdated (is_user id) f a.users u i) [
          | missed old off ↦ absurd (ground (arith, e, str_eq_iff u.id id))
          | hit x j at r ↦ ap (λ (v : UserRow). v.password_hash) r
        ];
        others_passwords = λ u i n. elim (update_where-IsUpdated (is_user id) f a.users u i) [
          | missed old off ↦ old
          | hit x j at r ↦
              absurd (n (ap (λ (v : UserRow). v.id) r ∙ ground (arith, str_eq_iff x.id id)))
        ];
        only_session = λ z i e. elim i [
          | inl new ↦ ap (λ (y : Session). y.token_hash) new ∙ fresh
          | inr old ↦
              let (_, off) = delete_where-In q a.sessions z old in
              absurd (ground (arith, e, str_eq_iff z.user_id id))
        ];
        other_sessions = λ z i n.
            inr (In-delete_where q a.sessions z i (ground (arith, n, str_eq_iff z.user_id id)));
        no_link_left = λ t i e unused.
            let (_, off) = delete_where-In p updated t i in
            ground (arith, e, unused, str_eq_iff t.user_id id);
        spent = λ t i e unused.
            let (left, off) = delete_where-In p updated t i in
            elim (update_where-IsUpdated (is_unused now token_hash) spend a.tokens t left) [
              | missed old miss ↦ ground (arith, owner t old e, e, unused, str_eq_iff t.user_id id)
              | hit x j at r ↦
                  let z : some now ≡ none = sym (ap (λ (y : Token). y.used_at) r) ∙ unused in cc
            ];
      }

-- The primary key of account_tokens.
abbrev pub UniqueHashes : Accounts → Type 0
UniqueHashes a = (s t : Token) → In s a.tokens → In t a.tokens → s.token_hash ≡ t.token_hash → s ≡ t

-- What a successful redeem has found and written.
pub record Claims (now : ℕ) (h pw sh : Str) (until : ℕ) (a a' : Accounts) : Type 0 where
  pub link : Token
  pub user : UserRow
  pub session : Session
  pub found : get_account_token now h a ≡ some (link, user)
  pub fresh : session.token_hash ≡ sh
  pub of_user : session.user_id ≡ link.user_id
  pub ends : session.expires_at ≡ until
  pub written :
      (let b = claimed now h pw link.user_id a in record b { sessions = session ∷ b.sessions }) ≡ a'

pub redeem_account_token-Claims :
    (now : ℕ) (h pw sh : Str) (until : ℕ) (a a' : Accounts) (u : UserRow)
    → redeem_account_token now h pw sh until a ≡ ok (some (u, a'))
    → Claims now h pw sh until a a'
unfolding redeem_account_token
redeem_account_token-Claims now h pw sh until a a' u e =
    elim (Option-cases (get_account_token now h a)) [
      | inl none_live ↦
          let z : ◌≡◌ {A = Option (UserRow × Accounts)} none (some (u, a')) =
            ok-eq-ok (rw (none_live, redeem_account_token) at e) in
          absurd (cc)
      | inr ((t, v), found) ↦
          let b = claimed now h pw t.user_id a in
          elim (Result-cases (create_session now sh t.user_id until b)) [
            | inr (x, bad) ↦ err-eq-ok x (some (u, a')) (rw (found, redeem_account_token, bad) at e)
            | inl (c, good) ↦
                let z : ◌≡◌ {A = Option (UserRow × Accounts)}
                    (some (record v { password_hash = pw; updated_at = now }, c)) (some (u, a')) =
                  ok-eq-ok (rw (found, redeem_account_token, good) at e) in
                let same : c ≡ a' = cc in
                let (s, fresh, by_user, ends, p) =
                  create_session-eq-ok now sh t.user_id until b c good in
                record {
                  link = t;
                  user = v;
                  session = s;
                  found = found;
                  fresh = fresh;
                  of_user = by_user;
                  ends = ends;
                  written = sym p ∙ same;
                }
          ]
    ]

pub Claims-IsRedeemed :
    (now : ℕ) (h pw sh : Str) (until : ℕ) (a a' : Accounts)
    → UniqueHashes a
    → (c : Claims now h pw sh until a a') → IsRedeemed h pw sh c.link.user_id a a'
unfolding after_claim
Claims-IsRedeemed now h pw sh until a a' unique c =
    let live = get_account_token-IsLive now h a c.link c.user c.found in
    let owner : (r : Token) → In r a.tokens → r.token_hash ≡ h → r.user_id ≡ c.link.user_id =
      λ r i k.
        ap (λ (y : Token). y.user_id) (unique r c.link i live.stored (k ∙ sym live.presented)) in
    subst (IsRedeemed h pw sh c.link.user_id a) c.written
      (claimed-IsRedeemed now h pw sh c.link.user_id a c.session c.fresh owner)

-- A link is redeemed only while it is unused and not expired, and its user enabled. Then the user
-- has the new password and no session but the new one, no unused link of theirs is left, the link is
-- spent, and the passwords and sessions of the others are as they were.
pub redeem_account_token-IsRedeemed :
    (now : ℕ) (h pw sh : Str) (until : ℕ) (a a' : Accounts) (u : UserRow)
    → UniqueHashes a
    → redeem_account_token now h pw sh until a ≡ ok (some (u, a'))
    → (t : Token) × (v : UserRow) × IsLive now h a t v × IsRedeemed h pw sh t.user_id a a'
redeem_account_token-IsRedeemed now h pw sh until a a' u unique e =
    let c = redeem_account_token-Claims now h pw sh until a a' u e in
    (
      c.link,
      c.user,
      get_account_token-IsLive now h a c.link c.user c.found,
      Claims-IsRedeemed now h pw sh until a a' unique c,
    )
