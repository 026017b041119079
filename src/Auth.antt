-- ===== src/Auth.antt =====
-- internal/auth/middleware.go, internal/auth/password_policy.go, VerifyPassword of
-- internal/auth/password.go and internal/handler/auth.go: who a request comes from, and signing in
-- and out.
pub mod Admin
pub mod Links
pub mod Passes
pub mod SignsIn
pub mod KeepsAdmin
use sparks_effect_api.Prelude.{
  ℕ, ◌+◌, List, [], ◌∷◌, ◌++◌, length, Option, none, some, Str, codes, Bool, false, not, ◌&&◌, ltb,
  ◌==◌, str_Eq, if◌then◌else◌, Result, ok, err,
}
use sparks_effect_api.Accounts.{
  UserRow, Accounts, PasswordChange, get_user_credentials_by_email, create_session, delete_session,
  delete_user_sessions, update_user_name, change_password, get_session_user,
}

-- What the handlers call of Go's library and of bcrypt: EqualFold, TrimSpace, ToLower,
-- RuneCountInString, the hash of a token, the comparison with a hash and the hash of a password,
-- which can fail.
pub record Crypto : Type 0 where
  pub equal_fold : Str → Str → Bool
  pub trim_space : Str → Str
  pub to_lower : Str → Str
  pub rune_count : Str → ℕ
  pub hash_token : Str → Str
  pub compare_hash : Str → Str → Bool
  pub hash_password : Str → Option Str

-- What decoding a body gives.
pub data Body (A : Type 0) : Type 0 where
  too_large : Body A
  malformed : Body A
  decoded : A → Body A

-- A response by its status; the passwords' faults come with 422.
pub data Reply (A : Type 0) : Type 0 where
  refused : ℕ → Reply A
  invalid : List Str → Reply A
  answered : ℕ → A → Reply A

-- Which of the calls of one request fail; `token` is the random token, if there is one.
pub record Outside : Type 0 where
  pub lookup_down : Bool
  pub write_down : Bool
  pub token : Option Str

abbrev pub bearer : Str
bearer = codes "bearer "

-- The first bytes of a header, if it has so many, and the rest.
unfoldable pub split_at : Str → Str → Option (Str × Str)
split_at [] header = some ([], header)
split_at (p ∷ prefix) [] = none
split_at (p ∷ prefix) (c ∷ header) = elim (split_at prefix header) [
  | none ↦ none
  | some (first, rest) ↦ some (c ∷ first, rest)
]

module _ (go : Crypto) where
  unfoldable pub bearer_token : Str → Option Str
  unfolding split_at
  bearer_token header = elim (split_at bearer header) [
    | none ↦ none
    | some (prefix, rest) ↦
        if not (go.equal_fold prefix bearer)
        then none
        else if go.trim_space rest == []
        then none
        else some (go.trim_space rest)
  ]

  -- `RequireAuth`: the user that goes on with the request, or the status; `down` is a lookup that
  -- fails.
  unfoldable pub require_auth : Bool → ℕ → Str → Accounts → Result ℕ UserRow
  unfolding bearer_token
  require_auth down now header a = elim (bearer_token header) [
    | none ↦ err 401
    | some token ↦
        if down
        then err 500
        else elim (get_session_user now (go.hash_token token) a) [ none ↦ err 401 | some u ↦ ok u ]
  ]

  -- `OptionalAuth`: the request always goes on, with a user or without.
  unfoldable pub optional_auth : Bool → ℕ → Str → Accounts → Option UserRow
  unfolding bearer_token
  optional_auth down now header a = elim (bearer_token header) [
    | none ↦ none
    | some token ↦ if down then none else get_session_user now (go.hash_token token) a
  ]

  unfoldable pub require_admin : Bool → ℕ → Str → Accounts → Result ℕ UserRow
  unfolding require_auth
  require_admin down now header a = elim (require_auth down now header a) [
    | err e ↦ err e
    | ok u ↦ if u.is_admin then ok u else err 403
  ]

  -- `ConstantTimeCompare` is 1 for equal bytes.
  unfoldable pub require_worker_token : Str → Str → Result ℕ (Unit {0})
  unfolding bearer_token
  require_worker_token expected header =
      if expected == [] then err 503 else elim (bearer_token header) [
        | none ↦ err 401
        | some token ↦ if token == expected then ok tt else err 401
      ]

  unfoldable pub verify_password : Str → Str → Bool
  verify_password hash password = if hash == [] then false else go.compare_hash hash password

  unfoldable pub normalize_email : Str → Str
  normalize_email email = go.to_lower (go.trim_space email)

  -- `Login`: the token with its end and the user. A request is an email and a password.
  unfoldable pub login :
      Outside → ℕ → ℕ → Body (Str × Str) → Accounts → Reply (Str × ℕ × UserRow) × Accounts
  unfolding verify_password normalize_email
  login o now ttl too_large a = (refused 413, a)
  login o now ttl malformed a = (refused 400, a)
  login o now ttl (decoded (email, password)) a =
      if o.lookup_down
      then (refused 500, a)
      else elim (get_user_credentials_by_email (normalize_email email) a) [
        | none ↦ (refused 401, a)
        | some u ↦
            if not (verify_password u.password_hash password)
            then (refused 401, a)
            else elim o.token [
              | none ↦ (refused 500, a)
              | some token ↦
                  if o.write_down
                  then (refused 500, a)
                  else elim (create_session now (go.hash_token token) u.id (now + ttl) a) [
                    | err e ↦ (refused 500, a)
                    | ok a' ↦ (answered 200 (token, now + ttl, u), a')
                  ]
            ]
      ]

  unfoldable pub logout : Bool → Str → Accounts → ℕ × Accounts
  unfolding bearer_token
  logout down header a = elim (bearer_token header) [
    | none ↦ (204, a)
    | some token ↦ if down then (500, a) else (204, delete_session (go.hash_token token) a)
  ]

  -- `RevokeAllSessions`, of the user of the context.
  unfoldable pub revoke_all_sessions : Bool → Option UserRow → Accounts → ℕ × Accounts
  revoke_all_sessions down none a = (401, a)
  revoke_all_sessions down (some u) a =
      if down then (500, a) else (204, delete_user_sessions u.id a)

  -- `UpdateMe`; a name of none is a body without one.
  unfoldable pub update_me :
      Bool → ℕ → Option UserRow → Body (Option Str) → Accounts → Reply UserRow × Accounts
  update_me down now none body a = (refused 401, a)
  update_me down now (some u) too_large a = (refused 413, a)
  update_me down now (some u) malformed a = (refused 400, a)
  update_me down now (some u) (decoded sent) a =
      let name : Str = elim sent [ none ↦ [] | some n ↦ go.trim_space n ] in
      if name == []
      then (invalid (codes "name is required" ∷ []), a)
      else if ltb 80 (go.rune_count name)
      then (invalid (codes "name must be at most 80 characters" ∷ []), a)
      else if down
      then (refused 500, a)
      else elim (update_user_name now u.id name a) [
        | none ↦ (refused 401, a)
        | some (v, a') ↦ (answered 200 v, a')
      ]

  -- The faults of `ValidatePassword`, by their messages; `common` is the list of common passwords.
  unfoldable pub validate_password : (Str → Bool) → Str → Str → List Str
  validate_password common pw email =
      if pw == []
      then codes "password is required" ∷ []
      else (if ltb (go.rune_count pw) 12
          then codes "password must be at least 12 characters" ∷ []
          else [])
        ++ ((if ltb 72 (length pw) then codes "password must be at most 72 bytes" ∷ [] else [])
            ++ ((if not (go.trim_space email == []) && go.equal_fold pw (go.trim_space email)
                  then codes "password must not match the email address" ∷ []
                  else [])
                ++ (if common (go.to_lower pw) then codes "password is too common" ∷ [] else [])))

  -- `ChangePassword`: the header is the request's, whose user is in the context. A request is the
  -- current password and the new one. The middle step runs on the rows as they are then: `between` is
  -- what other requests do while the passwords are hashed.
  unfoldable pub change_password_request :
      (Str → Bool)
      → Outside
      → (Accounts → Accounts)
      → ℕ
      → Str
      → Option UserRow
      → Body (Str × Str)
      → Accounts
      → Reply (Unit {0}) × Accounts
  unfolding bearer_token verify_password validate_password
  change_password_request common o between now header none body a = (refused 401, a)
  change_password_request common o between now header (some u) body a = elim (bearer_token header) [
    | none ↦ (refused 401, a)
    | some token ↦ elim body [
      | too_large ↦ (refused 413, a)
      | malformed ↦ (refused 400, a)
      | decoded (current, new) ↦
          if o.lookup_down
          then (refused 500, a)
          else elim (get_user_credentials_by_email u.email a) [
            | none ↦ (refused 401, a)
            | some row ↦
                if not (verify_password row.password_hash current)
                then (refused 401, a)
                else elim (validate_password common new u.email) [
                  | f ∷ fs ↦ (invalid (f ∷ fs), a)
                  | [] ↦ elim (go.hash_password new) [
                    | none ↦ (refused 500, a)
                    | some hash ↦
                        if o.write_down
                        then (refused 500, between a)
                        else let c : PasswordChange = record {
                          user_id = u.id;
                          current_hash = row.password_hash;
                          new_hash = hash;
                          keep_token_hash = go.hash_token token;
                        } in
                          let r = change_password now c (between a) in
                          if r.0 then (answered 204 tt, r.1) else (refused 409, r.1)
                  ]
                ]
          ]
    ]
  ]
