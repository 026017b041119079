-- ===== src/Auth/Links/SetsPassword.antt =====
-- internal/handler/accounttoken.go: what a link that is redeemed has checked and done.
use sparks_effect_api.Prelude.{
  ℕ, ◌+◌, ◌<◌, [], none, some, Str, Bool, false, ◌≡◌, refl, In, Bool-cases, Option-cases,
  List-cases, Result-cases, if◌then◌else◌, ok, err, inl, inr, subst, sym, str_Eq, str_eq_iff, ◌∙◌,
  update_where-In,
}
use sparks_effect_api.Accounts.{
  UserRow, Token, Accounts, get_session_user, is_user, delete_user_sessions,
}
use sparks_effect_api.Accounts.Tokens.{get_account_token, redeem_account_token, claimed}
use sparks_effect_api.Accounts.Redeemed.{
  UniqueHashes, IsLive, IsRedeemed, get_account_token-IsLive, Claims, redeem_account_token-Claims,
  Claims-IsRedeemed,
}
use sparks_effect_api.Auth.{
  Crypto, decoded, Reply, refused, answered, Outside, bearer_token, require_auth, validate_password,
}
use sparks_effect_api.Auth.SignsIn.{new_session-found, refused-eq-answered, invalid-eq-answered}
use sparks_effect_api.Auth.Links.{redeem_request}

module _ (go : Crypto) (common : Str → Bool) (now ttl : ℕ) (token password : Str) where
  -- `b` are the accounts at the claim.
  pub record SetsPassword (session : Str) (a b a' : Accounts) : Type 0 where
    pub read : Token
    pub user : UserRow
    pub hash : Str
    pub seen : get_account_token now (go.hash_token token) a ≡ some (read, user)
    pub policy : validate_password go common password user.email ≡ []
    pub hashed : go.hash_password password ≡ some hash
    pub link : Token
    pub owner : UserRow
    pub live : IsLive now (go.hash_token token) b link owner
    pub redeemed : IsRedeemed (go.hash_token token) hash (go.hash_token session) link.user_id b a'
    pub passes :
        (later : ℕ) (header : Str)
        → later < now + ttl
        → bearer_token go header ≡ some session
        → (v : UserRow) × (require_auth go false later header a' ≡ ok v) × (v.id ≡ link.user_id)

  redeemed-passes :
      (session hash : Str) (b a' : Accounts)
      (c : Claims now (go.hash_token token) hash (go.hash_token session) (now + ttl) b a')
      → (later : ℕ) (header : Str) → later < now + ttl
      → bearer_token go header ≡ some session
      → (v : UserRow) × (require_auth go false later header a' ≡ ok v) × (v.id ≡ c.link.user_id)
  unfolding claimed is_user require_auth delete_user_sessions
  redeemed-passes session hash b a' c later header early sent =
      let live = get_account_token-IsLive now (go.hash_token token) b c.link c.user c.found in
      let f = λ (u : UserRow). record u { password_hash = hash; updated_at = now } in
      let before = claimed now (go.hash_token token) hash c.link.user_id b in
      let stays : In (f c.user) before.users =
        update_where-In (is_user c.link.user_id) f b.users c.user live.user
          ((str_eq_iff c.user.id c.link.user_id).1 live.of_user) in
      let (v, seen, _, same_id) =
        new_session-found later c.session before a' (f c.user) stays live.enabled
          (live.of_user ∙ sym c.of_user) (subst (λ x. later < x) (sym c.ends) early)
          (sym c.written) in
      let seen' : get_session_user later (go.hash_token session) a' ≡ some v =
        subst (λ k. get_session_user later k a' ≡ some v) c.fresh seen in
      (v, unfold require_auth in rw (sent, seen') refl, same_id ∙ c.of_user)

  -- The part of a redeem after the hash of the password.
  abbrev after_hash :
      Outside → (Accounts → Accounts) → Str → Accounts → Reply (Str × ℕ × UserRow) × Accounts
  after_hash o between hash a = elim o.token [
    | none ↦ (refused 500, a)
    | some session ↦
        if o.write_down
        then (refused 500, between a)
        else elim (redeem_account_token now (go.hash_token token) hash (go.hash_token session)
            (now + ttl) (between a)) [
              | err e ↦ (refused 500, between a)
              | ok none ↦ (refused 404, between a)
              | ok (some (v, a')) ↦ (answered 200 (session, now + ttl, v), a')
            ]
  ]

  redeemed_answer :
      (o : Outside) (between : Accounts → Accounts) (a a' : Accounts) (session : Str) (until : ℕ)
      (v : UserRow) (t : Token) (u : UserRow) (hash : Str)
      → UniqueHashes (between a)
      → get_account_token now (go.hash_token token) a ≡ some (t, u)
      → validate_password go common password u.email ≡ []
      → go.hash_password password ≡ some hash
      → after_hash o between hash a ≡ (answered 200 (session, until, v), a')
      → SetsPassword session a (between a) a'
  redeemed_answer o between a a' session until v t u hash unique seen strong hashed h =
      elim (Option-cases o.token) [
        | inl dry ↦ refused-eq-answered (rw (dry) at h)
        | inr (fresh, minted) ↦ elim (Bool-cases o.write_down) [
          | inl lost ↦ refused-eq-answered (rw (minted, lost) at h)
          | inr kept ↦
              elim (Result-cases (
                redeem_account_token now (go.hash_token token) hash (go.hash_token fresh)
                  (now + ttl) (between a))) [
                    | inr (e, bad) ↦ refused-eq-answered (rw (minted, kept, bad) at h)
                    | inl (none, missing) ↦ refused-eq-answered (rw (minted, kept, missing) at h)
                    | inl (some (w, b), done) ↦
                        let z : ◌≡◌ {A = Reply (Str × ℕ × UserRow) × Accounts}
                            (answered 200 (fresh, now + ttl, w), b)
                            (answered 200 (session, until, v), a') =
                          rw (minted, kept, done) at h in
                        let same_token : fresh ≡ session = cc in
                        let same_state : b ≡ a' = cc in
                        let done' : redeem_account_token now (go.hash_token token) hash
                              (go.hash_token session) (now + ttl) (between a)
                            ≡ ok (some (w, a')) =
                          subst
                            (λ x.
                              redeem_account_token now (go.hash_token token) hash
                                (go.hash_token session) (now + ttl) (between a)
                              ≡ ok (some (w, x)))
                            same_state
                            (subst
                              (λ x.
                                redeem_account_token now (go.hash_token token) hash
                                  (go.hash_token x) (now + ttl) (between a)
                                ≡ ok (some (w, b)))
                              same_token done) in
                        let c =
                          redeem_account_token-Claims now (go.hash_token token) hash
                            (go.hash_token session) (now + ttl) (between a) a' w done' in
                        record {
                          read = t;
                          user = u;
                          hash = hash;
                          seen = seen;
                          policy = strong;
                          hashed = hashed;
                          link = c.link;
                          owner = c.user;
                          live =
                              get_account_token-IsLive now (go.hash_token token) (between a) c.link
                                c.user c.found;
                          redeemed =
                              Claims-IsRedeemed now (go.hash_token token) hash
                                (go.hash_token session) (now + ttl) (between a) a' unique c;
                          passes = redeemed-passes session hash (between a) a' c;
                        }
                  ]
        ]
      ]

  -- A redeem is answered with a session only if the link was live when it was claimed, and the
  -- password passed the policy for the email of the user that was read. Then the user has that
  -- password and no other session, no unused link of theirs is left, and the session passes as them
  -- until it expires.
  pub redeem_request-SetsPassword :
      (o : Outside) (between : Accounts → Accounts) (a a' : Accounts) (session : Str) (until : ℕ)
      (v : UserRow)
      → UniqueHashes (between a)
      → redeem_request go common o between now ttl token (decoded password) a
        ≡ (answered 200 (session, until, v), a')
      → SetsPassword session a (between a) a'
  unfolding redeem_request
  redeem_request-SetsPassword o between a a' session until v unique h =
      elim (Bool-cases o.lookup_down) [
        | inl down ↦ refused-eq-answered (rw (redeem_request, down) at h)
        | inr up ↦ elim (Option-cases (get_account_token now (go.hash_token token) a)) [
          | inl gone ↦ refused-eq-answered (rw (redeem_request, up, gone) at h)
          | inr ((t, u), seen) ↦ elim (List-cases (validate_password go common password u.email)) [
            | inr (f, fs, weak) ↦ invalid-eq-answered (rw (redeem_request, up, seen, weak) at h)
            | inl strong ↦ elim (Option-cases (go.hash_password password)) [
              | inl dry ↦ refused-eq-answered (rw (redeem_request, up, seen, strong, dry) at h)
              | inr (hash, hashed) ↦
                  redeemed_answer o between a a' session until v t u hash unique seen strong hashed
                    (rw (redeem_request, up, seen, strong, hashed) at h)
            ]
          ]
        ]
      ]
