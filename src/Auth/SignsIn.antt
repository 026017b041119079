-- ===== src/Auth/SignsIn.antt =====
-- internal/handler/auth.go: who can sign in, and what the token is then good for.
use sparks_effect_api.Prelude.{
  ℕ, List, ◌+◌, ◌<◌, [], ◌∷◌, none, some, Str, true, false, not, ◌&&◌, ◌≡◌, ◌≢◌, refl, In,
  Bool-cases, Option-cases, Result-cases, arith, ok, inl, inr, subst, sym, ◌==◌, str_Eq, str_eq_iff,
  select, select-In, select-holds, select-some, has_row-In, ◌∙◌, ap,
}
use sparks_effect_api.Accounts.{
  UserRow, Session, Accounts, get_session_user, get_user_credentials_by_email, create_session,
  is_set, is_live_session,
}
use sparks_effect_api.Accounts.Passwords.{UniqueIds}
use sparks_effect_api.Accounts.Redeemed.{create_session-eq-ok}
use sparks_effect_api.Auth.{
  Crypto, decoded, Reply, refused, invalid, answered, Outside, bearer_token, require_auth, login,
  normalize_email, verify_password,
}

-- A session at the head of the table authenticates an enabled user while it is live.
pub new_session-found :
    (later : ℕ) (s : Session) (a a' : Accounts) (u : UserRow)
    → In u a.users
    → u.disabled_at ≡ none
    → u.id ≡ s.user_id
    → later < s.expires_at
    → a' ≡ record a { sessions = s ∷ a.sessions }
    → (v : UserRow) × (get_session_user later s.token_hash a' ≡ some v)
      × In v a.users
      × (v.id ≡ s.user_id)
unfolding get_session_user is_live_session is_set
new_session-found later s a a' u m enabled same_id live p =
    let k = λ (v : UserRow). v.id == s.user_id && not (is_set v.disabled_at) in
    let on : k u ≡ true = ground (arith, enabled, same_id, str_eq_iff u.id s.user_id) in
    let (v, found) = select-some k a.users (has_row-In k a.users u m on) in
    let at = select-holds k a.users v found in
    let first : select (is_live_session later s.token_hash) (s ∷ a.sessions) ≡ some s =
      unfold select in ground (arith, live, str_eq_iff s.token_hash s.token_hash) in
    (
      v,
      subst (λ (b : Accounts). get_session_user later s.token_hash b ≡ some v) (sym p)
          (rw (get_session_user, first, found) refl),
      select-In k a.users v found,
      ground (arith, str_eq_iff v.id s.user_id),
    )

-- A refusal is not an answer.
pub invalid-eq-answered :
    {A C : Type 0} {fs : List Str} {k : ℕ} {x : A} {a a' : Accounts}
    → ◌≡◌ {A = Reply A × Accounts} (invalid fs, a) (answered k x, a')
    → C
invalid-eq-answered {A} {fs} {k} {x} h =
    let z : ◌≡◌ {A = Reply A} (invalid fs) (answered k x) =
      ap (λ (r : Reply A × Accounts). r.0) h in
    cc

pub refused-eq-answered :
    {A C : Type 0} {n k : ℕ} {x : A} {a a' : Accounts}
    → ◌≡◌ {A = Reply A × Accounts} (refused n, a) (answered k x, a')
    → C
refused-eq-answered {A} {n} {k} {x} h =
    let z : ◌≡◌ {A = Reply A} (refused n) (answered k x) = ap (λ (r : Reply A × Accounts). r.0) h in
    cc

-- What a successful sign-in has checked, and what its token is good for.
module _ (go : Crypto) (now ttl : ℕ) (email password : Str) (a a' : Accounts) where
  pub record IsSignedIn (token : Str) (u : UserRow) : Type 0 where
    pub stored : In u a.users
    pub by_email : u.email ≡ normalize_email go email
    pub enabled : u.disabled_at ≡ none
    pub has_password : u.password_hash ≢ []
    pub verified : go.compare_hash u.password_hash password ≡ true
    pub passes :
        (later : ℕ) (header : Str)
        → later < now + ttl
        → bearer_token go header ≡ some token
        → require_auth go false later header a' ≡ ok u

  signed_in :
      (token : Str) (u : UserRow)
      → UniqueIds a
      → get_user_credentials_by_email (normalize_email go email) a ≡ some u
      → verify_password go u.password_hash password ≡ true
      → create_session now (go.hash_token token) u.id (now + ttl) a ≡ ok a'
      → IsSignedIn token u
  unfolding get_user_credentials_by_email verify_password is_set
  signed_in token u unique found right made =
      let k = λ (v : UserRow). v.email == normalize_email go email && not (is_set v.disabled_at) in
      let at = select-holds k a.users u found in
      let on = select-In k a.users u found in
      let off : u.disabled_at ≡ none = ground arith in
      let (s, by_hash, by_user, by_time, p) =
        create_session-eq-ok now (go.hash_token token) u.id (now + ttl) a a' made in
      record {
        stored = on;
        by_email = ground (arith, str_eq_iff u.email (normalize_email go email));
        enabled = off;
        has_password = λ e. ground (arith, e, str_eq_iff u.password_hash []);
        verified = ground arith;
        passes = λ later header early sent.
            let (v, seen, m, same_id) =
              new_session-found later s a a' u on off (sym by_user)
                (subst (λ x. later < x) (sym by_time) early) p in
            let user : get_session_user later (go.hash_token token) a' ≡ some u =
              subst (λ k. get_session_user later k a' ≡ some u) by_hash
                (seen ∙ ap some (unique v u m on (same_id ∙ by_user))) in
            unfold require_auth in rw (sent, user) refl;
      }

  -- A sign-in succeeds only for an enabled user with that email, who has a password, and it is the
  -- one that was sent; a request with the token then passes as that user until the session expires.
  pub login-IsSignedIn :
      (o : Outside) (token : Str) (until : ℕ) (u : UserRow)
      → UniqueIds a
      → login go o now ttl (decoded (email, password)) a ≡ (answered 200 (token, until, u), a')
      → IsSignedIn token u
  unfolding login
  login-IsSignedIn o token until u unique h = elim (Bool-cases o.lookup_down) [
    | inl down ↦ refused-eq-answered (rw (login, down) at h)
    | inr up ↦ elim (Option-cases (get_user_credentials_by_email (normalize_email go email) a)) [
      | inl unknown ↦ refused-eq-answered (rw (login, up, unknown) at h)
      | inr (v, found) ↦ elim (Bool-cases (verify_password go v.password_hash password)) [
        | inr wrong ↦ refused-eq-answered (rw (login, up, found, wrong) at h)
        | inl right ↦ elim (Option-cases o.token) [
          | inl dry ↦ refused-eq-answered (rw (login, up, found, right, dry) at h)
          | inr (t, minted) ↦ elim (Bool-cases o.write_down) [
            | inl lost ↦ refused-eq-answered (rw (login, up, found, right, minted, lost) at h)
            | inr kept ↦
                elim (Result-cases (create_session now (go.hash_token t) v.id (now + ttl) a)) [
                  | inr (e, taken) ↦
                      refused-eq-answered (rw (login, up, found, right, minted, kept, taken) at h)
                  | inl (b, made) ↦
                      let z : ◌≡◌ {A = Reply (Str × ℕ × UserRow) × Accounts}
                          (answered 200 (t, now + ttl, v), b) (answered 200 (token, until, u), a') =
                        rw (login, up, found, right, minted, kept, made) at h in
                      let same : v ≡ u = cc in
                      let same_token : t ≡ token = cc in
                      let same_state : b ≡ a' = cc in
                      signed_in token u unique
                        (subst
                          (λ w. get_user_credentials_by_email (normalize_email go email) a ≡ some w)
                          same found)
                        (subst (λ (w : UserRow). verify_password go w.password_hash password ≡ true)
                          same right)
                        (subst
                          (λ x. create_session now (go.hash_token token) u.id (now + ttl) a ≡ ok x)
                          same_state
                          (subst
                            (λ (w : UserRow).
                              create_session now (go.hash_token token) w.id (now + ttl) a ≡ ok b)
                            same
                            (subst
                              (λ x. create_session now (go.hash_token x) v.id (now + ttl) a ≡ ok b)
                              same_token made)))
                ]
          ]
        ]
      ]
    ]
  ]
