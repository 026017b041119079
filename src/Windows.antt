-- ===== src/Windows.antt =====
-- internal/transit/userservice.go: the checks on a service's frequency windows.
pub mod Clock
pub mod Timetable
use sparks_effect_api.Prelude.{
  ℕ, suc, ◌+◌, ◌-◌, ◌*◌, List, [], ◌∷◌, ◌++◌, Option, none, some, Str, codes, Bool, false, not,
  ◌&&◌, ◌||◌, ltb, leb, pos, leb_ℤ, ◌==◌, nat_Eq, str_Eq, if◌then◌else◌, contains, Result, ok, err,
}
use sparks_effect_api.Types.{FrequencyWindow}

-- A `fault.ValidationFault` of this check: the rule that is broken, and the window's index.
pub data Fault : Type 0 where
  required : Str → ℕ → Fault
  bad_format : Str → ℕ → Fault
  headway_not_positive : ℕ → Fault
  wrong_order : ℕ → Fault
  overlap : ℕ → ℕ → Fault

-- `windowSpan`
pub record Span : Type 0 where
  pub index : ℕ
  pub start : ℕ
  pub end : ℕ

-- The UTF-8 encodings of the white space runes.
abbrev white_space : List Str
white_space =
    (9 ∷ [])
    ∷ (10 ∷ [])
    ∷ (11 ∷ [])
    ∷ (12 ∷ [])
    ∷ (13 ∷ [])
    ∷ (32 ∷ [])
    ∷ (194 ∷ 133 ∷ [])
    ∷ (194 ∷ 160 ∷ [])
    ∷ (225 ∷ 154 ∷ 128 ∷ [])
    ∷ (226 ∷ 128 ∷ 128 ∷ [])
    ∷ (226 ∷ 128 ∷ 129 ∷ [])
    ∷ (226 ∷ 128 ∷ 130 ∷ [])
    ∷ (226 ∷ 128 ∷ 131 ∷ [])
    ∷ (226 ∷ 128 ∷ 132 ∷ [])
    ∷ (226 ∷ 128 ∷ 133 ∷ [])
    ∷ (226 ∷ 128 ∷ 134 ∷ [])
    ∷ (226 ∷ 128 ∷ 135 ∷ [])
    ∷ (226 ∷ 128 ∷ 136 ∷ [])
    ∷ (226 ∷ 128 ∷ 137 ∷ [])
    ∷ (226 ∷ 128 ∷ 138 ∷ [])
    ∷ (226 ∷ 128 ∷ 168 ∷ [])
    ∷ (226 ∷ 128 ∷ 169 ∷ [])
    ∷ (226 ∷ 128 ∷ 175 ∷ [])
    ∷ (226 ∷ 129 ∷ 159 ∷ [])
    ∷ (227 ∷ 128 ∷ 128 ∷ [])
    ∷ []

-- Their beginnings; none of them is itself an encoding.
abbrev unfinished : List Str
unfinished =
    (194 ∷ [])
    ∷ (225 ∷ [])
    ∷ (225 ∷ 154 ∷ [])
    ∷ (226 ∷ [])
    ∷ (226 ∷ 128 ∷ [])
    ∷ (226 ∷ 129 ∷ [])
    ∷ (227 ∷ [])
    ∷ (227 ∷ 128 ∷ [])
    ∷ []

-- `read` holds the bytes of a rune that is not yet complete.
is_blank_from : Str → Str → Bool
is_blank_from read [] = read == []
is_blank_from read (c ∷ cs) =
    let whole = is_blank_from [] cs in
    let more = is_blank_from (read ++ c ∷ []) cs in
    if contains white_space (read ++ c ∷ [])
    then whole
    else if contains unfinished (read ++ c ∷ [])
    then more
    else false

-- `strings.TrimSpace(value) == ""`
unfoldable pub is_blank : Str → Bool
unfolding is_blank_from
is_blank value = is_blank_from [] value

-- `d < '0' || d > '9'`, negated.
is_digit : ℕ → Bool
is_digit d = leb 48 d && leb d 57

unfoldable pub minutes_of_day : Str → Option ℕ
unfolding is_digit
minutes_of_day (a ∷ b ∷ c ∷ d ∷ e ∷ []) =
    let hour = (a - 48) * 10 + (b - 48) in
    let minute = (d - 48) * 10 + (e - 48) in
    if not (c == 58)
    then none
    else if not (is_digit a && is_digit b && is_digit d && is_digit e)
    then none
    else if ltb 23 hour || ltb 59 minute
    then none
    else some (hour * 60 + minute)
minutes_of_day _ = none

unfoldable pub parse_window_time : Str → ℕ → Str → Result Fault ℕ
unfolding is_blank minutes_of_day
parse_window_time name i value =
    if is_blank value
    then err (required name i)
    else elim (minutes_of_day value) [ none ↦ err (bad_format name i) | some minutes ↦ ok minutes ]

-- The inner loop: the first earlier span that the new one collides with.
unfoldable pub first_collision : ℕ → ℕ → List Span → Option ℕ
first_collision start end [] = none
first_collision start end (prev ∷ spans) =
    let rest = first_collision start end spans in
    if ltb start prev.end && ltb prev.start end then some prev.index else rest

faults_of : {A : Type 0} → Result Fault A → List Fault
faults_of (ok a) = []
faults_of (err f) = f ∷ []

headway_faults : ℕ → FrequencyWindow → List Fault
headway_faults i fw = if leb_ℤ fw.headway_s (pos 0) then headway_not_positive i ∷ [] else []

-- The rest of the loop's body once the two times are parsed: the faults and `spans`.
place_span : ℕ → List Span → Result Fault ℕ → Result Fault ℕ → List Fault × List Span
unfolding first_collision
place_span i spans (ok start) (ok end) = if leb end start then (wrong_order i ∷ [], spans) else (
  elim (first_collision start end spans) [ none ↦ [] | some prev ↦ overlap i prev ∷ [] ],
  spans ++ record { index = i; start = start; end = end } ∷ [],
)
place_span i spans start end = ([], spans)

-- The body of the loop after the two times are parsed: the faults that it appends, and `spans`.
unfoldable pub check_parsed :
    ℕ → List Span → FrequencyWindow → Result Fault ℕ → Result Fault ℕ → List Fault × List Span
unfolding faults_of headway_faults place_span
check_parsed i spans fw start end =
    let (faults, spans') = place_span i spans start end in
    (faults_of start ++ faults_of end ++ headway_faults i fw ++ faults, spans')

-- The body of the loop.
unfoldable pub check_window : ℕ → List Span → FrequencyWindow → List Fault × List Span
unfolding parse_window_time check_parsed
check_window i spans fw =
    check_parsed i spans fw (parse_window_time (codes "start_time") i fw.start_time)
      (parse_window_time (codes "end_time") i fw.end_time)

unfoldable pub windows_from : ℕ → List Span → List FrequencyWindow → List Fault
unfolding check_window
windows_from i spans [] = []
windows_from i spans (fw ∷ fws) =
    let (faults, spans') = check_window i spans fw in faults ++ windows_from (suc i) spans' fws

unfoldable pub validate_frequency_windows : List FrequencyWindow → List Fault
unfolding windows_from
validate_frequency_windows windows = windows_from 0 [] windows
