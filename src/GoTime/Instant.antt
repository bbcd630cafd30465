-- ===== src/GoTime/Instant.antt =====
-- Instants and wall clocks.
use ve_xchange_api.Prelude.{ℕ, ◌+◌, ◌-◌, ◌*◌, ◌/◌, ◌^◌, ◌≤◌, ◌<◌, ◌≡◌, ◌↔◌, true, arith}
use ve_xchange_api.Prelude.Int.{pos, ltb_ℤ}
use ve_xchange_api.GoTime.{
  Time, day_length, second, hour, minute, wall, at_wall, date_of, date, sub,
}
use ve_xchange_api.GoTime.Calendar.{day_number-civil_of_day}

-- The instant is at least a day and the zone's offset after the beginning of the count, so that no
-- subtraction on its day's readings stops at 0.
abbrev pub IsCounted : Time → Type 0
IsCounted t = day_length + t.loc.west * second + t.loc.east * second ≤ t.ns

-- `time.Date` at the date of `t` is that hour and minute of the day of `t`.
pub date-date_of :
    (t : Time) (h m : ℕ)
    → date (date_of t) h m t.loc
      ≡ at_wall t.loc (wall t / day_length * day_length + h * hour + m * minute)
unfolding date date_of
date-date_of t h m = rw (day_number-civil_of_day (wall t / day_length))

-- A duration that an `int64` holds is not cut.
pub sub-pos : (a b : Time) (d : ℕ) → a.ns ≡ b.ns + d → d < 2 ^ 63 → sub a b ≡ pos d
unfolding sub
sub-pos a b d e h = ground arith

-- A duration exceeds a threshold exactly when more time than that has passed; that `Sub` may stop at
-- the greatest duration makes no difference.
pub lt-sub_iff :
    (n : ℕ) (a b : Time) → n < 2 ^ 63 - 1 → (ltb_ℤ (pos n) (sub a b) ≡ true) ↔ (b.ns + n < a.ns)
unfolding sub
lt-sub_iff n a b h = (λ e. ground arith, λ e. ground arith)
