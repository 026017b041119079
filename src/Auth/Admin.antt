-- ===== src/Auth/Admin.antt =====
-- internal/handler/admin.go: creating, inviting and patching accounts as an admin.
use sparks_effect_api.Prelude.{
  ℕ, [], ◌∷◌, Option, none, some, Str, Bool, true, false, not, ◌&&◌, ◌==◌, str_Eq, if◌then◌else◌,
  ok, err,
}
use sparks_effect_api.Accounts.{
  UserRow, Accounts, UserPatch, create_user, patch_user, get_user_by_email,
}
use sparks_effect_api.Auth.{
  Crypto, Body, too_large, malformed, decoded, Reply, refused, invalid, answered, Outside,
  normalize_email, validate_password,
}

-- The body of `CreateUser`.
pub record CreateUserRequest : Type 0 where
  pub email : Str
  pub name : Str
  pub password : Str
  pub is_admin : Bool

-- `req.IsAdmin != nil && !*req.IsAdmin`
unfoldable pub demotes : Option Bool → Bool
demotes none = false
demotes (some admin) = not admin

-- `req.Disabled != nil && *req.Disabled`
unfoldable pub disables : Option Bool → Bool
disables none = false
disables (some disabled) = disabled

unfoldable pub is_nil : Option Bool → Bool
is_nil none = true
is_nil (some b) = false

module _ (go : Crypto) where
  -- `CreateUser`; the token of `o` is the id of `ids.NewUUID`.
  unfoldable pub create_user_request :
      (Str → Bool) → Outside → ℕ → Body CreateUserRequest → Accounts → Reply UserRow × Accounts
  unfolding normalize_email validate_password
  create_user_request common o now too_large a = (refused 413, a)
  create_user_request common o now malformed a = (refused 400, a)
  create_user_request common o now (decoded req) a =
      let email = normalize_email go req.email in
      if email == []
      then (refused 400, a)
      else if req.password == []
      then (refused 400, a)
      else elim (validate_password go common req.password email) [
        | f ∷ fs ↦ (invalid (f ∷ fs), a)
        | [] ↦ if o.lookup_down then (refused 500, a) else elim (get_user_by_email email a) [
          | some u ↦ (refused 409, a)
          | none ↦ elim (go.hash_password req.password) [
            | none ↦ (refused 500, a)
            | some hash ↦ elim o.token [
              | none ↦ (refused 500, a)
              | some id ↦
                  let u : UserRow = record {
                    id = id;
                    email = email;
                    name = go.trim_space req.name;
                    is_admin = req.is_admin;
                    password_hash = hash;
                    created_at = now;
                    updated_at = now;
                    disabled_at = none;
                  } in
                  if o.write_down then (refused 500, a) else elim (create_user now u a) [
                    | err e ↦ (refused 500, a)
                    | ok a' ↦ (answered 201 u, a')
                  ]
            ]
          ]
        ]
      ]

  -- `PatchUser` of the caller in the context, with the id of the path.
  unfoldable pub patch_user_request :
      Bool → ℕ → Option UserRow → Str → Body UserPatch → Accounts → Reply UserRow × Accounts
  unfolding demotes disables is_nil
  patch_user_request down now none id body a = (refused 401, a)
  patch_user_request down now (some caller) id too_large a = (refused 413, a)
  patch_user_request down now (some caller) id malformed a = (refused 400, a)
  patch_user_request down now (some caller) id (decoded patch) a =
      if is_nil patch.is_admin && is_nil patch.disabled
      then (refused 400, a)
      else if go.equal_fold id caller.id && demotes patch.is_admin
      then (refused 409, a)
      else if go.equal_fold id caller.id && disables patch.disabled
      then (refused 409, a)
      else if down
      then (refused 500, a)
      else elim (patch_user now id patch a) [
        | none ↦ (refused 404, a)
        | some (u, a') ↦ (answered 200 u, a')
      ]
