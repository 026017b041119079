-- ===== src/Accounts/Authenticated.antt =====
-- internal/persistence/postgres/postgres.go: whom a session authenticates, and that disabling an
-- account signs it out.
use sparks_effect_api.Prelude.{
  ℕ, ◌<◌, none, some, Str, Bool, true, false, not, ◌&&◌, ◌≡◌, sym, subst, In, inl, inr, str_eq_iff,
  Bool-cases, Option-cases, select, select-In, select-holds, delete_where-In, In-delete_where,
  arith, ◌==◌, str_Eq, has_row, ◌∙◌,
}
use sparks_effect_api.Accounts.{
  UserRow, Session, Accounts, get_session_user, set_user_disabled, is_live_session, is_set,
  delete_user_sessions, is_user, flag_user,
}

abbrev pub NoSession : Str → Accounts → Type 0
NoSession id a = (s : Session) → In s a.sessions → ¬ (s.user_id ≡ id)

abbrev pub IsSignedOut : Str → Accounts → Type 0
IsSignedOut id a =
    (now : ℕ) (token_hash : Str) (u : UserRow)
    → get_session_user now token_hash a ≡ some u
    → ¬ (u.id ≡ id)

-- The session behind an authenticated user.
pub record Holds (now : ℕ) (token_hash : Str) (a : Accounts) (u : UserRow) : Type 0 where
  pub session : Session
  pub stored : In session a.sessions
  pub presented : session.token_hash ≡ token_hash
  pub live : now < session.expires_at
  pub of_user : u.id ≡ session.user_id
  pub stored_user : In u a.users
  pub enabled : u.disabled_at ≡ none

pub get_session_user-Holds :
    (now : ℕ) (token_hash : Str) (a : Accounts) (u : UserRow)
    → get_session_user now token_hash a ≡ some u
    → Holds now token_hash a u
unfolding get_session_user is_live_session is_set
get_session_user-Holds now token_hash a u h =
    elim (Option-cases (select (is_live_session now token_hash) a.sessions)) [
      | inl miss ↦ absurd (let z : none ≡ some u = rw (miss, get_session_user) at h in cc)
      | inr (s, found) ↦
          let k = λ (v : UserRow). v.id == s.user_id && not (is_set v.disabled_at) in
          let g : select k a.users ≡ some u = rw (found, get_session_user) at h in
          let on = select-holds (is_live_session now token_hash) a.sessions s found in
          let at = select-holds k a.users u g in
          record {
            session = s;
            stored = select-In (is_live_session now token_hash) a.sessions s found;
            presented = ground (arith, str_eq_iff s.token_hash token_hash);
            live = ground arith;
            stored_user = select-In k a.users u g;
            of_user = ground (arith, str_eq_iff u.id s.user_id);
            enabled = ground arith;
          }
    ]

pub NoSession-IsSignedOut : (id : Str) (a : Accounts) → NoSession id a → IsSignedOut id a
NoSession-IsSignedOut id a no_session now token_hash u h e =
    let held = get_session_user-Holds now token_hash a u h in
    no_session held.session held.stored (sym held.of_user ∙ e)

delete_user_sessions-NoSession :
    (id : Str) (a : Accounts) → NoSession id (delete_user_sessions id a)
unfolding delete_user_sessions
delete_user_sessions-NoSession id a s m e =
    let (_, kept) = delete_where-In (λ (s : Session). s.user_id == id) a.sessions s m in
    ground (arith, str_eq_iff s.user_id id)

-- Disabling: the flag, and the sessions go.
disabling :
    (now : ℕ) (id : Str) (a a' : Accounts)
    → set_user_disabled now id true a ≡ some a'
    → a' ≡ delete_user_sessions id (flag_user now id true a)
unfolding set_user_disabled
disabling now id a a' h = elim (Bool-cases (has_row (is_user id) a.users)) [
  | inl found ↦
      let z : some (delete_user_sessions id (flag_user now id true a)) ≡ some a' = rw found at h in
      cc
  | inr missing ↦ absurd (let z : none ≡ some a' = rw missing at h in cc)
]

enabling :
    (now : ℕ) (id : Str) (a a' : Accounts)
    → set_user_disabled now id false a ≡ some a'
    → a' ≡ flag_user now id false a
unfolding set_user_disabled
enabling now id a a' h = elim (Bool-cases (has_row (is_user id) a.users)) [
  | inl found ↦ let z : some (flag_user now id false a) ≡ some a' = rw found at h in cc
  | inr missing ↦ absurd (let z : none ≡ some a' = rw missing at h in cc)
]

flag_user-NoSession :
    (now : ℕ) (id : Str) (disabled : Bool) (a : Accounts)
    → NoSession id a
    → NoSession id (flag_user now id disabled a)
unfolding flag_user
flag_user-NoSession now id disabled a h = h

others_stay :
    (id : Str) (a : Accounts) (s : Session)
    → In s a.sessions
    → ¬ (s.user_id ≡ id)
    → In s (delete_user_sessions id a).sessions
unfolding delete_user_sessions
others_stay id a s m other =
    In-delete_where (λ (s : Session). s.user_id == id) a.sessions s m
      (ground (arith, str_eq_iff s.user_id id))

-- A disabled account is signed out: no session authenticates it then, nor once it is enabled again;
-- the sessions of the others stay.
pub set_user_disabled-IsSignedOut :
    (now : ℕ) (id : Str) (a a' : Accounts)
    → set_user_disabled now id true a ≡ some a'
    → IsSignedOut id a'
      × ((later : ℕ) (a'' : Accounts)
          → set_user_disabled later id false a' ≡ some a''
          → IsSignedOut id a'')
      × ((s : Session) → In s a.sessions → ¬ (s.user_id ≡ id) → In s a'.sessions)
unfolding flag_user
set_user_disabled-IsSignedOut now id a a' h =
    let e = disabling now id a a' h in
    let out : NoSession id a' =
      subst (NoSession id) (sym e) (delete_user_sessions-NoSession id (flag_user now id true a)) in
    (
      NoSession-IsSignedOut id a' out,
      λ later a'' k. NoSession-IsSignedOut id a'' (
          subst (NoSession id) (sym (enabling later id a' a'' k))
            (flag_user-NoSession later id false a' out)),
      λ s m other.
          subst (λ (b : Accounts). In s b.sessions) (sym e)
            (others_stay id (flag_user now id true a) s m other),
    )
