-- ===== src/Auth/Passes.antt =====
-- internal/auth/middleware.go: what a request that passes has presented.
use sparks_effect_api.Prelude.{
  ℕ, some, Str, Bool, true, false, ◌≡◌, refl, Bool-cases, Option-cases, Result-cases, if◌then◌else◌,
  Result, ok, err, ok-eq-ok, err-eq-ok, inl, inr, subst,
}
use sparks_effect_api.Accounts.{UserRow, Accounts, get_session_user}
use sparks_effect_api.Accounts.Authenticated.{Holds, get_session_user-Holds}
use sparks_effect_api.Auth.{Crypto, bearer_token, require_auth, require_admin}

-- The last test of `RequireAdmin`.
passed :
    (admin : Bool) (v u : UserRow)
    → ◌≡◌ {A = Result ℕ UserRow} (if admin then ok v else err 403) (ok u)
    → (v ≡ u) × (admin ≡ true)
passed true v u h = (ok-eq-ok {E = ℕ} h, refl)
passed false v u h = err-eq-ok 403 u h

module _ (go : Crypto) where
  -- The token of the header, and the session behind it.
  pub record Presents (now : ℕ) (header : Str) (a : Accounts) (u : UserRow) : Type 0 where
    pub token : Str
    pub sent : bearer_token go header ≡ some token
    pub looked_up : get_session_user now (go.hash_token token) a ≡ some u
    pub holds : Holds now (go.hash_token token) a u

  pub require_auth-Presents :
      (down : Bool) (now : ℕ) (header : Str) (a : Accounts) (u : UserRow)
      → require_auth go down now header a ≡ ok u
      → Presents now header a u
  unfolding require_auth
  require_auth-Presents down now header a u h = elim (Option-cases (bearer_token go header)) [
    | inl missing ↦ err-eq-ok 401 u (rw (require_auth, missing) at h)
    | inr (token, sent) ↦ elim (Bool-cases down) [
      | inl failed ↦ err-eq-ok 500 u (rw (require_auth, sent, failed) at h)
      | inr up ↦ elim (Option-cases (get_session_user now (go.hash_token token) a)) [
        | inl stale ↦ err-eq-ok 401 u (rw (require_auth, sent, up, stale) at h)
        | inr (v, found) ↦
            let same : v ≡ u = ok-eq-ok {E = ℕ} (rw (require_auth, sent, up, found) at h) in
            let found' : get_session_user now (go.hash_token token) a ≡ some u =
              subst (λ w. get_session_user now (go.hash_token token) a ≡ some w) same found in
            record {
              token = token;
              sent = sent;
              looked_up = found';
              holds = get_session_user-Holds now (go.hash_token token) a u found';
            }
      ]
    ]
  ]

  -- A request passes as an admin only with a bearer token whose hash is that of a stored session,
  -- not expired, of an enabled user who is an admin.
  pub require_admin-Presents :
      (down : Bool) (now : ℕ) (header : Str) (a : Accounts) (u : UserRow)
      → require_admin go down now header a ≡ ok u
      → Presents now header a u × (u.is_admin ≡ true)
  unfolding require_admin
  require_admin-Presents down now header a u h =
      elim (Result-cases (require_auth go down now header a)) [
        | inr (e, out) ↦ err-eq-ok e u (rw (require_admin, out) at h)
        | inl (v, auth) ↦
            let (same, admin) = passed v.is_admin v u (rw (require_admin, auth) at h) in
            (
              require_auth-Presents down now header a u
                  (subst (λ w. require_auth go down now header a ≡ ok w) same auth),
              subst (λ (w : UserRow). w.is_admin ≡ true) same admin,
            )
      ]
