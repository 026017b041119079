-- ===== src/Accounts/Passwords.antt =====
-- internal/persistence/postgres/postgres.go: what changing a password leaves.
use sparks_effect_api.Prelude.{
  ℕ, none, Bool, true, false, not, ◌&&◌, ◌<◌, ◌≡◌, refl, ap, sym, subst, In, inl, inr, str_eq_iff,
  Bool-cases, update_where, delete_where-In, In-delete_where, arith, ◌==◌, str_Eq, has_row,
  has_row-found, missed-In, ◌∙◌, missed, hit, update_where-IsUpdated,
}
use sparks_effect_api.Accounts.{
  UserRow, Session, Accounts, PasswordChange, change_password, may_change, keeps_live, is_set,
}

-- The primary key of users.
abbrev pub UniqueIds : Accounts → Type 0
UniqueIds a = (u v : UserRow) → In u a.users → In v a.users → u.id ≡ v.id → u ≡ v

-- The user whose password may change: enabled, with the hash that was verified.
pub record MayChange (c : PasswordChange) (a : Accounts) : Type 0 where
  pub user : UserRow
  pub stored : In user a.users
  pub same_id : user.id ≡ c.user_id
  pub same_hash : user.password_hash ≡ c.current_hash
  pub enabled : user.disabled_at ≡ none

-- The presenting session, which is still live.
pub record KeepsLive (now : ℕ) (c : PasswordChange) (a : Accounts) : Type 0 where
  pub session : Session
  pub stored : In session a.sessions
  pub same_token : session.token_hash ≡ c.keep_token_hash
  pub same_user : session.user_id ≡ c.user_id
  pub live : now < session.expires_at

pub record IsChanged (c : PasswordChange) (a a' : Accounts) : Type 0 where
  pub new_hash : (u : UserRow) → In u a'.users → u.id ≡ c.user_id → u.password_hash ≡ c.new_hash
  pub kept_only :
      (s : Session) → In s a'.sessions → s.user_id ≡ c.user_id → s.token_hash ≡ c.keep_token_hash
  pub kept : (s : Session) → In s a.sessions → s.token_hash ≡ c.keep_token_hash → In s a'.sessions
  pub others : (s : Session) → In s a.sessions → ¬ (s.user_id ≡ c.user_id) → In s a'.sessions
  pub links : a'.tokens ≡ a.tokens

pub data Outcome (now : ℕ) (c : PasswordChange) (a : Accounts) (r : Bool × Accounts) : Type 0 where
  changed : MayChange c a → KeepsLive now c a → r.0 ≡ true → IsChanged c a r.1 → Outcome now c a r
  refused : (MayChange c a → ¬ KeepsLive now c a) → r ≡ (false, a) → Outcome now c a r

may_change-MayChange :
    (c : PasswordChange) (a : Accounts) → has_row (may_change c) a.users ≡ true → MayChange c a
unfolding may_change is_set
may_change-MayChange c a h =
    let (u, m, at) = has_row-found (may_change c) a.users h in
    record {
      user = u;
      stored = m;
      same_id = ground (arith, str_eq_iff u.id c.user_id);
      same_hash = ground (arith, str_eq_iff u.password_hash c.current_hash);
      enabled = ground arith;
    }

keeps_live-KeepsLive :
    (now : ℕ) (c : PasswordChange) (a : Accounts)
    → has_row (keeps_live now c) a.sessions ≡ true
    → KeepsLive now c a
unfolding keeps_live
keeps_live-KeepsLive now c a h =
    let (s, m, at) = has_row-found (keeps_live now c) a.sessions h in
    record {
      session = s;
      stored = m;
      same_token = ground (arith, str_eq_iff s.token_hash c.keep_token_hash);
      same_user = ground (arith, str_eq_iff s.user_id c.user_id);
      live = ground arith;
    }

not_MayChange :
    (c : PasswordChange) (a : Accounts) → has_row (may_change c) a.users ≡ false → ¬ MayChange c a
unfolding may_change is_set
not_MayChange c a h m =
    let off = missed-In (may_change c) a.users m.user h m.stored in
    ground (
      arith,
      m.same_id,
      m.same_hash,
      m.enabled,
      str_eq_iff m.user.id c.user_id,
      str_eq_iff m.user.password_hash c.current_hash,
    )

not_KeepsLive :
    (now : ℕ) (c : PasswordChange) (a : Accounts)
    → has_row (keeps_live now c) a.sessions ≡ false
    → ¬ KeepsLive now c a
unfolding keeps_live
not_KeepsLive now c a h k =
    let off = missed-In (keeps_live now c) a.sessions k.session h k.stored in
    ground (
      arith,
      k.same_token,
      k.same_user,
      k.live,
      str_eq_iff k.session.token_hash c.keep_token_hash,
      str_eq_iff k.session.user_id c.user_id,
    )

module _ (now : ℕ) (c : PasswordChange) (a : Accounts) (unique : UniqueIds a) where
  new_hash_lem :
      (m : MayChange c a) (u : UserRow)
      → In u (
          update_where
            (may_change c)
            (λ u. record u { password_hash = c.new_hash; updated_at = now })
            a.users)
      → u.id ≡ c.user_id
      → u.password_hash ≡ c.new_hash
  unfolding may_change is_set
  new_hash_lem m u i e =
      elim (update_where-IsUpdated (may_change c)
        (λ u. record u { password_hash = c.new_hash; updated_at = now }) a.users u i) [
          | missed old off ↦
              let same : u ≡ m.user = unique u m.user old m.stored (e ∙ sym m.same_id) in
              let off' : may_change c m.user ≡ false =
                subst (λ v. may_change c v ≡ false) same off in
              absurd (
                ground (
                  arith,
                  m.same_id,
                  m.same_hash,
                  m.enabled,
                  str_eq_iff m.user.id c.user_id,
                  str_eq_iff m.user.password_hash c.current_hash,
                ))
          | hit x j at p ↦ ap (λ (v : UserRow). v.password_hash) p
        ]

  -- A change succeeds exactly for an enabled user with the verified hash and a live presenting
  -- session; then the hash is the new one, of the user's sessions only the presenting one is left,
  -- and the sessions of others and all links stay. Otherwise nothing changes.
  pub change_password-Outcome : Outcome now c a (change_password now c a)
  unfolding change_password
  change_password-Outcome = elim (Bool-cases (has_row (may_change c) a.users)) [
    | inr no_user ↦ rw no_user (refused (λ m k. not_MayChange c a no_user m) refl)
    | inl user ↦ elim (Bool-cases (has_row (keeps_live now c) a.sessions)) [
      | inr no_session ↦
          rw (user, no_session) (refused (λ m k. not_KeepsLive now c a no_session k) refl)
      | inl session ↦
          let m = may_change-MayChange c a user in
          let p =
            λ (s : Session). s.user_id == c.user_id && not (s.token_hash == c.keep_token_hash) in
          rw (user, session)
            (changed m (keeps_live-KeepsLive now c a session) refl (record {
              new_hash = new_hash_lem m;
              kept_only = λ s i e.
                  let (_, off) = delete_where-In p a.sessions s i in
                  ground (
                    arith,
                    e,
                    str_eq_iff s.user_id c.user_id,
                    str_eq_iff s.token_hash c.keep_token_hash,
                  );
              kept = λ s i e.
                  In-delete_where p a.sessions s i
                    (ground (arith, e, str_eq_iff s.token_hash c.keep_token_hash));
              others = λ s i n.
                  In-delete_where p a.sessions s i
                    (ground (arith, n, str_eq_iff s.user_id c.user_id));
              links = refl;
            }))
    ]
  ]
