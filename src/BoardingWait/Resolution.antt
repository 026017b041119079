-- ===== src/BoardingWait/Resolution.antt =====
-- `Service.ResolveBoardingWait` of internal/transit/types.go.
use sparks_effect_api.Prelude.{
  Option, none, some, ◌≡◌, refl, ◌⊎◌, Str, ℤ, pos, ◌≤ℤ◌, ok, arith, All,
}
use sparks_effect_api.Types.{BoardingWaitOverride, BoardingWaitPolicy, Service}
use sparks_effect_api.BoardingWait.{
  WaitError, source_service, source_scenario, source_global, parse, parse_boarding_wait_policy,
  resolve_boarding_wait, wait_secs, kind_or_none, resolve_into, resolve_service_wait, wait_fixed,
}
use sparks_effect_api.BoardingWait.Bounds.{AllPositive, parse-wait_secs}

-- The policy in force for a service, by precedence: its own override, its scenario's, the global.
abbrev pub InForce :
    Option BoardingWaitOverride
    → Option BoardingWaitOverride
    → BoardingWaitPolicy
    → BoardingWaitPolicy
    → Str
    → Type 0
InForce (some o) scenario global p source = (parse o ≡ ok p) × (source ≡ source_service)
InForce none (some o) global p source = (parse o ≡ ok p) × (source ≡ source_scenario)
InForce none none global p source = (p ≡ global) × (source ≡ source_global)

-- A policy that some text was parsed into.
abbrev pub WasParsed : BoardingWaitPolicy → Type 0
WasParsed p = (kind : Str) × (secs : Option ℤ) × (parse_boarding_wait_policy kind secs ≡ ok p)

parse-WasParsed : (o : BoardingWaitOverride) (p : BoardingWaitPolicy) → parse o ≡ ok p → WasParsed p
unfolding parse
parse-WasParsed o p h = (o.policy, o.secs, ground arith)

InForce-WasParsed :
    (own scenario : Option BoardingWaitOverride) (global p : BoardingWaitPolicy) (source : Str)
    → WasParsed global
    → InForce own scenario global p source
    → WasParsed p
InForce-WasParsed (some o) scenario global p source g f = parse-WasParsed o p f.0
InForce-WasParsed none (some o) global p source g f = parse-WasParsed o p f.0
InForce-WasParsed none none global p source g f = rw f.0 g

resolve-InForce :
    (own scenario : Option BoardingWaitOverride) (global p : BoardingWaitPolicy) (source : Str)
    → InForce own scenario global p source
    → resolve_boarding_wait own scenario global ≡ ok (p, source)
unfolding resolve_boarding_wait
resolve-InForce (some o) scenario global p source f = ground arith
resolve-InForce none (some o) global p source f = ground arith
resolve-InForce none none global p source f = ground arith

resolved : Service → BoardingWaitPolicy → Str → ℤ → Service
resolved s p source wait = record s {
  boarding_wait_policy = kind_or_none p;
  boarding_wait_secs = wait;
  boarding_wait_source = source;
}

resolve_service_wait-eq :
    (s : Service) (scenario : Option BoardingWaitOverride) (global p : BoardingWaitPolicy)
    (source : Str) (wait : ℤ)
    → resolve_boarding_wait s.boarding_wait scenario global ≡ ok (p, source)
    → wait_secs p s.frequency_windows ≡ ok wait
    → resolve_service_wait s scenario global ≡ (resolved s p source wait, none)
unfolding resolve_service_wait resolve_into resolved
resolve_service_wait-eq s scenario global p source wait h k =
    rw (h, resolve_service_wait) (rw (k, resolve_into) refl)

-- What the call leaves in the service.
abbrev pub Resolved : Service → BoardingWaitPolicy → Str → Service × Option WaitError → Type 0
Resolved s p source (t, e) =
    (e ≡ none)
    × (t.boarding_wait_source ≡ source)
    × (wait_secs p s.frequency_windows ≡ ok t.boarding_wait_secs)
    × (pos 0 ≤ℤ t.boarding_wait_secs)
    × ((p.kind ≡ wait_fixed) ⊎ All (λ w. t.boarding_wait_secs ≤ℤ w.headway_s) s.frequency_windows)
    × (t.stops ≡ s.stops)

-- With a global policy that was parsed and headways that are not negative, resolving a service
-- whose override in force parses succeeds: the source names the override by precedence, the wait is
-- the policy's, not negative, and at most every headway unless the policy is a fixed one.
pub resolve_service_wait-Resolved :
    (s : Service) (scenario : Option BoardingWaitOverride) (global p : BoardingWaitPolicy)
    (source : Str)
    → WasParsed global
    → AllPositive s.frequency_windows
    → InForce s.boarding_wait scenario global p source
    → Resolved s p source (resolve_service_wait s scenario global)
unfolding resolved
resolve_service_wait-Resolved s scenario global p source g k f =
    let (kind, secs, e) = InForce-WasParsed s.boarding_wait scenario global p source g f in
    let (wait, charged, low, high) = parse-wait_secs kind secs p s.frequency_windows e k in
    let chosen = resolve-InForce s.boarding_wait scenario global p source f in
    rw (resolve_service_wait-eq s scenario global p source wait chosen charged)
      (refl, refl, charged, low, high, refl)

-- A call that fails changes nothing of the service.
pub resolve_service_wait-unchanged :
    (s : Service) (scenario : Option BoardingWaitOverride) (global : BoardingWaitPolicy)
    (e : WaitError)
    → (resolve_service_wait s scenario global).1 ≡ some e
    → (resolve_service_wait s scenario global).0 ≡ s
unfolding resolve_service_wait
resolve_service_wait-unchanged s scenario global e h = ground arith
