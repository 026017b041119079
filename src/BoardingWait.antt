-- ===== src/BoardingWait.antt =====
-- internal/transit/boarding_wait.go, and the two `ResolveBoardingWait` methods of types.go and
-- userservice.go: what a rider waits before boarding.
pub mod Bounds
pub mod Resolution
use sparks_effect_api.Prelude.{
  List, [], ◌∷◌, Option, none, some, Str, codes, ℤ, pos, half_ℤ, ltb_ℤ, ◌==◌, str_Eq, ◌||◌,
  if◌then◌else◌, Result, ok, err, ◌>>=◌,
}
use sparks_effect_api.Types.{
  BoardingWaitOverride, BoardingWaitPolicy, FrequencyWindow, Service, ServiceGraph,
}

-- The constants of `BoardingWaitKind`; the type is a string, so other values can occur.
abbrev pub wait_none : Str
wait_none = codes "none"

abbrev pub wait_half_headway : Str
wait_half_headway = codes "half_headway"

abbrev pub wait_full_headway : Str
wait_full_headway = codes "full_headway"

abbrev pub wait_fixed : Str
wait_fixed = codes "fixed"

abbrev pub source_service : Str
source_service = codes "service"

abbrev pub source_scenario : Str
source_scenario = codes "scenario"

abbrev pub source_global : Str
source_global = codes "global"

pub data WaitError : Type 0 where
  policy_required : WaitError
  fixed_missing : WaitError
  fixed_negative : ℤ → WaitError
  unrecognised : Str → WaitError

abbrev pub default_boarding_wait_policy : BoardingWaitPolicy
default_boarding_wait_policy = record { kind = wait_none; fixed_secs = pos 0 }

-- The `case BoardingWaitFixed` of the switch.
parse_fixed : Option ℤ → Result WaitError BoardingWaitPolicy
parse_fixed none = err fixed_missing
parse_fixed (some secs) =
    if ltb_ℤ secs (pos 0)
    then err (fixed_negative secs)
    else ok (record { kind = wait_fixed; fixed_secs = secs })

-- The switch of `ParseBoardingWaitPolicy`, after an empty kind has become "none".
parse_kind : Str → Option ℤ → Result WaitError BoardingWaitPolicy
unfolding parse_fixed
parse_kind kind fixed_secs =
    if kind == wait_none || kind == wait_half_headway || kind == wait_full_headway
    then ok (record { kind = kind; fixed_secs = pos 0 })
    else if kind == wait_fixed
    then parse_fixed fixed_secs
    else err (unrecognised kind)

unfoldable pub parse_boarding_wait_policy : Str → Option ℤ → Result WaitError BoardingWaitPolicy
unfolding parse_kind
parse_boarding_wait_policy kind fixed_secs =
    parse_kind (if kind == [] then wait_none else kind) fixed_secs

unfoldable pub parse : BoardingWaitOverride → Result WaitError BoardingWaitPolicy
unfolding parse_boarding_wait_policy
parse o = if o.policy == [] then err policy_required else parse_boarding_wait_policy o.policy o.secs

-- The policy in force and where it was set.
unfoldable pub resolve_boarding_wait :
    Option BoardingWaitOverride
    → Option BoardingWaitOverride
    → BoardingWaitPolicy
    → Result WaitError (BoardingWaitPolicy × Str)
resolve_boarding_wait (some service) scenario global = do p ← parse service; ok (p, source_service)
resolve_boarding_wait none (some scenario) global = do p ← parse scenario; ok (p, source_scenario)
resolve_boarding_wait none none global = ok (global, source_global)

-- The loop of `minHeadway` over `windows[1:]`.
min_headway_from : ℤ → List FrequencyWindow → ℤ
min_headway_from best [] = best
min_headway_from best (w ∷ ws) =
    min_headway_from (if ltb_ℤ w.headway_s best then w.headway_s else best) ws

unfoldable pub min_headway : List FrequencyWindow → ℤ
unfolding min_headway_from
min_headway [] = pos 0
min_headway (w ∷ ws) = min_headway_from w.headway_s ws

unfoldable pub wait_secs : BoardingWaitPolicy → List FrequencyWindow → Result WaitError ℤ
wait_secs p windows =
    if p.kind == wait_none || p.kind == []
    then ok (pos 0)
    else if p.kind == wait_half_headway
    then ok (half_ℤ (min_headway windows))
    else if p.kind == wait_full_headway
    then ok (min_headway windows)
    else if p.kind == wait_fixed
    then (if ltb_ℤ p.fixed_secs (pos 0) then err (fixed_negative p.fixed_secs) else ok p.fixed_secs)
    else err (unrecognised p.kind)

unfoldable pub kind_or_none : BoardingWaitPolicy → Str
kind_or_none p = if p.kind == [] then wait_none else p.kind

-- What `resolveInto` writes through its two pointers; on an error it writes nothing.
unfoldable pub resolve_into : BoardingWaitPolicy → List FrequencyWindow → Result WaitError (Str × ℤ)
resolve_into p windows = do wait ← wait_secs p windows; ok (kind_or_none p, wait)

unfoldable pub apply_boarding_wait :
    {F : Type 0}
    → ServiceGraph F
    → BoardingWaitPolicy
    → List FrequencyWindow
    → Result WaitError (ServiceGraph F)
apply_boarding_wait sg policy windows = do
  (kind, secs) ← resolve_into policy windows
  ok (record sg { wait_policy = kind; wait_secs = secs })

-- `Service.ResolveBoardingWait`: the service after the call, and the error.
unfoldable pub resolve_service_wait :
    Service → Option BoardingWaitOverride → BoardingWaitPolicy → Service × Option WaitError
resolve_service_wait s scenario global =
    elim (resolve_boarding_wait s.boarding_wait scenario global) [
      | err e ↦ (s, some e)
      | ok (policy, source) ↦ elim (resolve_into policy s.frequency_windows) [
        | err e ↦ (s, some e)
        | ok (kind, secs) ↦ (
          record s {
            boarding_wait_policy = kind;
            boarding_wait_secs = secs;
            boarding_wait_source = source;
          },
          none,
        )
      ]
    ]
