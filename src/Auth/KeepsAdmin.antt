-- ===== src/Auth/KeepsAdmin.antt =====
-- internal/handler/admin.go: an admin who patches accounts is still an admin afterwards.
use sparks_effect_api.Prelude.{
  ℕ, Option, none, some, Str, Bool, true, false, ◌&&◌, ◌≡◌, In, Bool-cases, Option-cases, arith,
  inl, inr, sym, str_Eq, str_eq_iff, ◌∙◌, update_where, update_where-In, In-update_where,
}
use sparks_effect_api.Accounts.{
  UserRow, Accounts, UserPatch, is_user, with_disabled, flag_user, set_user_disabled, patch_admin,
  patch_disabled, patch_user, delete_user_sessions,
}
use sparks_effect_api.Accounts.Calls.{patch_user-eq-some}
use sparks_effect_api.Auth.{Crypto, Body, too_large, malformed, decoded}
use sparks_effect_api.Auth.Admin.{patch_user_request, demotes, disables, is_nil}

-- The account is there, enabled and an admin's.
pub record HasAdmin (id : Str) (a : Accounts) : Type 0 where
  pub row : UserRow
  pub stored : In row a.users
  pub same_id : row.id ≡ id
  pub admin : row.is_admin ≡ true
  pub enabled : row.disabled_at ≡ none

patch_admin-HasAdmin :
    (now : ℕ) (id cid : Str) (admin : Option Bool) (a : Accounts)
    → (id ≡ cid → demotes admin ≡ false)
    → HasAdmin cid a
    → HasAdmin cid (patch_admin now id admin a)
unfolding patch_admin demotes is_user
patch_admin-HasAdmin now id cid none a keep h = h
patch_admin-HasAdmin now id cid (some b) a keep h =
    let f = λ (u : UserRow). record u { is_admin = b; updated_at = now } in
    elim (Bool-cases (is_user id h.row)) [
      | inr off ↦ record {
        row = h.row;
        stored = In-update_where (is_user id) f a.users h.row h.stored off;
        same_id = h.same_id;
        admin = h.admin;
        enabled = h.enabled;
      }
      | inl at ↦
          let same : id ≡ cid = sym ((str_eq_iff h.row.id id).0 at) ∙ h.same_id in
          record {
            row = f h.row;
            stored = update_where-In (is_user id) f a.users h.row h.stored at;
            same_id = h.same_id;
            admin = ground (arith, keep same);
            enabled = h.enabled;
          }
    ]

set_user_disabled-users :
    (now : ℕ) (id : Str) (disabled : Bool) (a a' : Accounts)
    → set_user_disabled now id disabled a ≡ some a'
    → a'.users ≡ update_where (is_user id) (with_disabled now disabled) a.users
unfolding set_user_disabled flag_user delete_user_sessions
set_user_disabled-users now id disabled a a' h = ground arith

patch_disabled-HasAdmin :
    (now : ℕ) (id cid : Str) (disabled : Option Bool) (a : Accounts)
    → (id ≡ cid → disables disabled ≡ false)
    → HasAdmin cid a
    → HasAdmin cid (patch_disabled now id disabled a)
unfolding patch_disabled disables is_user with_disabled
patch_disabled-HasAdmin now id cid none a keep h = h
patch_disabled-HasAdmin now id cid (some d) a keep h =
    elim (Option-cases (set_user_disabled now id d a)) [
      | inl missing ↦ rw (patch_disabled, missing) h
      | inr (b, found) ↦
          let p = set_user_disabled-users now id d a b found in
          let f = with_disabled now d in
          rw (patch_disabled, found)
            (elim (Bool-cases (is_user id h.row)) [
              | inr off ↦ record {
                row = h.row;
                stored = rw p (In-update_where (is_user id) f a.users h.row h.stored off);
                same_id = h.same_id;
                admin = h.admin;
                enabled = h.enabled;
              }
              | inl at ↦
                  let same : id ≡ cid = sym ((str_eq_iff h.row.id id).0 at) ∙ h.same_id in
                  let d_off : d ≡ false = keep same in
                  record {
                    row = f h.row;
                    stored = rw p (update_where-In (is_user id) f a.users h.row h.stored at);
                    same_id = ground (arith, h.same_id);
                    admin = ground (arith, h.admin);
                    enabled = ground (arith, d_off);
                  }
            ])
    ]

module _ (go : Crypto) (fold_refl : (s : Str) → go.equal_fold s s ≡ true) where
  refusal_off :
      (id cid : Str) (b : Bool) → (go.equal_fold id cid && b) ≡ false → id ≡ cid → b ≡ false
  refusal_off id cid b h e =
      let z : go.equal_fold id cid ≡ true = rw e (fold_refl cid) in ground arith

  -- An enabled admin who patches an account, whichever, is an enabled admin afterwards: a request
  -- cannot leave the accounts without one.
  pub patch_user_request-HasAdmin :
      (down : Bool) (now : ℕ) (caller : UserRow) (id : Str) (body : Body UserPatch) (a : Accounts)
      → HasAdmin caller.id a
      → HasAdmin caller.id (patch_user_request go down now (some caller) id body a).1
  unfolding patch_user_request
  patch_user_request-HasAdmin down now caller id too_large a h = h
  patch_user_request-HasAdmin down now caller id malformed a h = h
  patch_user_request-HasAdmin down now caller id (decoded patch) a h =
      elim (Bool-cases (is_nil patch.is_admin && is_nil patch.disabled)) [
        | inl empty ↦ rw empty h
        | inr sent ↦ elim (Bool-cases (go.equal_fold id caller.id && demotes patch.is_admin)) [
          | inl demoting ↦ rw (sent, demoting) h
          | inr kept ↦ elim (Bool-cases (go.equal_fold id caller.id && disables patch.disabled)) [
            | inl disabling ↦ rw (sent, kept, disabling) h
            | inr on ↦ elim (Bool-cases down) [
              | inl lost ↦ rw (sent, kept, on, lost) h
              | inr up ↦ elim (Option-cases (patch_user now id patch a)) [
                | inl missing ↦ rw (sent, kept, on, up, missing) h
                | inr ((u, a'), found) ↦
                    rw (sent, kept, on, up, found)
                      (rw (patch_user-eq-some now id patch u a a' found) (
                        patch_disabled-HasAdmin now id caller.id patch.disabled
                          (patch_admin now id patch.is_admin a)
                          (refusal_off id caller.id (disables patch.disabled) on)
                          (patch_admin-HasAdmin now id caller.id patch.is_admin a
                            (refusal_off id caller.id (demotes patch.is_admin) kept) h)))
              ]
            ]
          ]
        ]
      ]
