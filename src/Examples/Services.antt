-- ===== src/Examples/Services.antt =====
-- Boarding waits, frequency windows and staleness on small inputs.
use sparks_effect_api.Prelude.{
  List, [], ◌∷◌, Option, none, some, Str, codes, true, false, pos, ◌≡◌, refl, ◌↔◌, ok, arith,
  contains, lookup, insert, str_eq,
}
use sparks_effect_api.Types.{BoardingWaitOverride, BoardingWaitPolicy, FrequencyWindow, Service}
use sparks_effect_api.BoardingWait.{
  parse_boarding_wait_policy, wait_half_headway, resolve_service_wait, source_service, unrecognised,
  resolve_boarding_wait, parse,
}
use sparks_effect_api.BoardingWait.Bounds.{AllPositive, ChargedWithin, parse-wait_secs}
use sparks_effect_api.BoardingWait.Resolution.{
  InForce, Resolved, resolve_service_wait-Resolved, resolve_service_wait-unchanged,
}
use sparks_effect_api.Windows.{Span, overlap, minutes_of_day, validate_frequency_windows}
use sparks_effect_api.Windows.Clock.{IsClock, minutes_of_day_iff}
use sparks_effect_api.Windows.Timetable.{AreApart, validate_frequency_windows_iff}
use sparks_effect_api.Staleness.{membership_stale}
use sparks_effect_api.Staleness.Fresh.{IsFresh, membership_stale_iff}

abbrev window : Str → Str → FrequencyWindow
window from to = record { start_time = from; end_time = to; headway_s = pos 600 }

abbrev windows : List FrequencyWindow
windows = window (codes "06:00") (codes "09:30") ∷ window (codes "09:30") (codes "23:59") ∷ []

-- Two windows that meet have no fault.
windows_pass : validate_frequency_windows windows ≡ []
unfolding validate_frequency_windows contains str_eq
windows_pass = refl

-- A window that starts within another does.
windows_clash :
    validate_frequency_windows (window (codes "08:00") (codes "10:00") ∷ windows)
    ≡ overlap 1 0 ∷ overlap 2 0 ∷ []
unfolding validate_frequency_windows contains str_eq
windows_clash = refl

validate_frequency_windows_iff_example :
    (validate_frequency_windows windows ≡ []) ↔ ((spans : List Span) × AreApart 0 [] windows spans)
validate_frequency_windows_iff_example = validate_frequency_windows_iff windows

minutes_of_day_iff_example :
    (minutes_of_day (codes "09:30") ≡ some 570) ↔ IsClock (codes "09:30") 570
minutes_of_day_iff_example = minutes_of_day_iff (codes "09:30") 570

abbrev half : BoardingWaitPolicy
half = record { kind = wait_half_headway; fixed_secs = pos 0 }

half_parses : parse_boarding_wait_policy wait_half_headway none ≡ ok half
unfolding parse_boarding_wait_policy str_eq
half_parses = refl

headways : AllPositive windows
headways = (omega arith, (omega arith, tt))

parse-wait_secs_example : ChargedWithin half windows
parse-wait_secs_example = parse-wait_secs wait_half_headway none half windows half_parses headways

abbrev service : Option BoardingWaitOverride → Service
service wait = record {
  id = codes "x";
  vehicle_type_id = codes "v";
  active = true;
  stops = [];
  frequency_windows = windows;
  boarding_wait = wait;
  boarding_wait_policy = [];
  boarding_wait_secs = pos 0;
  boarding_wait_source = [];
}

abbrev own : BoardingWaitOverride
own = record { policy = wait_half_headway; secs = none }

own_parses : InForce (some own) none half half source_service
unfolding parse str_eq
own_parses = (refl, refl)

resolve_service_wait-Resolved_example :
    Resolved
      (service (some own))
      half
      source_service
      (resolve_service_wait (service (some own)) none half)
resolve_service_wait-Resolved_example =
    resolve_service_wait-Resolved (service (some own)) none half half source_service
      (wait_half_headway, none, half_parses) headways own_parses

abbrev wrong : BoardingWaitOverride
wrong = record { policy = codes "often"; secs = none }

wrong_fails :
    (resolve_service_wait (service (some wrong)) none half).1 ≡ some (unrecognised (codes "often"))
unfolding resolve_service_wait resolve_boarding_wait parse str_eq
wrong_fails = refl

resolve_service_wait-unchanged_example :
    (resolve_service_wait (service (some wrong)) none half).0 ≡ service (some wrong)
resolve_service_wait-unchanged_example =
    resolve_service_wait-unchanged (service (some wrong)) none half (unrecognised (codes "often"))
      wrong_fails

abbrev member : Str
member = codes "m"

membership_stale_iff_example :
    (membership_stale (member ∷ member ∷ []) 5 (member ∷ []) ((member, 4) ∷ []) ≡ false)
    ↔ IsFresh (member ∷ member ∷ []) 5 (member ∷ []) ((member, 4) ∷ [])
membership_stale_iff_example =
    membership_stale_iff (member ∷ member ∷ []) 5 (member ∷ []) ((member, 4) ∷ []) ((λ m. m), tt)

-- A service that was updated later makes a compile stale.
updated_later : membership_stale (member ∷ []) 5 (member ∷ []) ((member, 6) ∷ []) ≡ true
unfolding membership_stale insert contains str_eq lookup
updated_later = refl
