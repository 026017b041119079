-- ===== src/Windows/Clock.antt =====
-- The times that `minutesOfDay` reads are HH:MM, and it reads each of them.
use sparks_effect_api.Prelude.{
  ℕ, ◌+◌, ◌-◌, ◌*◌, ◌/◌, ◌%◌, ◌<◌, ◌≤◌, [], ◌∷◌, some, Str, nat_Eq, ◌≡◌, ◌↔◌, arith,
}
use sparks_effect_api.Windows.{is_digit, minutes_of_day}

-- `HH:MM`
abbrev pub show_time : ℕ → ℕ → Str
show_time hour minute =
    (48 + hour / 10) ∷ (48 + hour % 10) ∷ 58 ∷ (48 + minute / 10) ∷ (48 + minute % 10) ∷ []

pub record IsClock (value : Str) (minutes : ℕ) : Type 0 where
  pub hour : ℕ
  pub minute : ℕ
  pub hour_ok : hour < 24
  pub minute_ok : minute < 60
  pub shown : value ≡ show_time hour minute
  pub counted : minutes ≡ hour * 60 + minute

minutes_of_day-show_time :
    (hour minute : ℕ)
    → hour < 24
    → minute < 60
    → minutes_of_day (show_time hour minute) ≡ some (hour * 60 + minute)
unfolding minutes_of_day is_digit
minutes_of_day-show_time hour minute h m = ground arith

digits_back :
    (x y : ℕ)
    → 48 ≤ x
    → x ≤ 57
    → 48 ≤ y
    → y ≤ 57
    → (x ≡ 48 + ((x - 48) * 10 + (y - 48)) / 10) × (y ≡ 48 + ((x - 48) * 10 + (y - 48)) % 10)
digits_back x y a b c d = omega arith

minutes_of_day-IsClock :
    (value : Str) (minutes : ℕ) → minutes_of_day value ≡ some minutes → IsClock value minutes
unfolding minutes_of_day is_digit
minutes_of_day-IsClock [] minutes h = ground arith
minutes_of_day-IsClock (a ∷ []) minutes h = ground arith
minutes_of_day-IsClock (a ∷ b ∷ []) minutes h = ground arith
minutes_of_day-IsClock (a ∷ b ∷ c ∷ []) minutes h = ground arith
minutes_of_day-IsClock (a ∷ b ∷ c ∷ d ∷ []) minutes h = ground arith
minutes_of_day-IsClock (a ∷ b ∷ c ∷ d ∷ e ∷ f ∷ rest) minutes h = ground arith
minutes_of_day-IsClock (a ∷ b ∷ c ∷ d ∷ e ∷ []) minutes h =
    let (a1, a2, b1, b2, colon, d1, d2, e1, e2, hours, mins, total) = read h in
    let (ha, hb) = digits_back a b a1 a2 b1 b2 in
    let (hd, he) = digits_back d e d1 d2 e1 e2 in
    record {
      hour = (a - 48) * 10 + (b - 48);
      minute = (d - 48) * 10 + (e - 48);
      hour_ok = omega arith;
      minute_ok = omega arith;
      shown = cc;
      counted = total;
    }
  where
    read :
        minutes_of_day (a ∷ b ∷ c ∷ d ∷ e ∷ []) ≡ some minutes
        → (48 ≤ a)
          × (a ≤ 57)
          × (48 ≤ b)
          × (b ≤ 57)
          × (c ≡ 58)
          × (48 ≤ d)
          × (d ≤ 57)
          × (48 ≤ e)
          × (e ≤ 57)
          × ((a - 48) * 10 + (b - 48) ≤ 23)
          × ((d - 48) * 10 + (e - 48) ≤ 59)
          × (minutes ≡ ((a - 48) * 10 + (b - 48)) * 60 + ((d - 48) * 10 + (e - 48)))
    read h = ground arith

-- `minutesOfDay` reads exactly the strings HH:MM from 00:00 to 23:59, to their minutes.
pub minutes_of_day_iff :
    (value : Str) (minutes : ℕ) → (minutes_of_day value ≡ some minutes) ↔ IsClock value minutes
minutes_of_day_iff value minutes = (
  minutes_of_day-IsClock value minutes,
  λ c. rw (c.shown, c.counted) (minutes_of_day-show_time c.hour c.minute c.hour_ok c.minute_ok),
)
