-- ===== src/Encoding/Clock.antt =====
-- `ms_to_datetime` and `datetime_to_ms`. A datetime is its wall-clock reading and its offset from
-- UTC, in microseconds; `none` is a naive one. The two floating-point conversions are parameters.
use supernote_task_service.Common.{
  ℕ, suc, ◌≡◌, true, Option, none, some, arith, if◌then◌else◌, ◌>>=◌,
}
use supernote_task_service.Common.Int.{ℤ, pos, negsuc, ◌-ℤ◌, leb_ℤ}

pub record Datetime : Type 0 where
  pub wall : ℤ
  pub offset : Option ℤ

-- `int(t * 1000)` of the timestamp of an instant, and the instant of the timestamp `ms / 1000`:
-- `none` where `datetime.fromtimestamp` raises, as it does behind the year 9999.
pub record Floats : Type 0 where
  pub to_ms : ℤ → ℤ
  pub from_ms : ℤ → Option ℤ

module _ (fl : Floats) where
  abbrev at_utc : Option ℤ → Option (Option Datetime)
  at_utc none = none
  at_utc (some wall) = some (some (record { wall = wall; offset = some (pos 0) }))

  -- `none` where it raises, and `some none` for `None`.
  unfoldable pub ms_to_datetime : Option ℤ → Option (Option Datetime)
  ms_to_datetime none = some none
  ms_to_datetime (some ms) = if leb_ℤ ms (pos 0) then some none else at_utc (fl.from_ms ms)

  -- A naive datetime is read as UTC.
  unfoldable pub datetime_to_ms : Datetime → ℤ
  datetime_to_ms d = elim d.offset [ none ↦ fl.to_ms d.wall | some o ↦ fl.to_ms (d.wall -ℤ o) ]

  -- `_dt_to_ms` and `_ms_to_dt` of repository.py
  unfoldable pub dt_to_ms : Option Datetime → ℤ
  unfolding datetime_to_ms
  dt_to_ms none = pos 0
  dt_to_ms (some d) = datetime_to_ms d

  unfoldable pub ms_to_dt : ℤ → Option (Option Datetime)
  unfolding ms_to_datetime
  ms_to_dt ms = ms_to_datetime (some ms)

  sub-zero : (a : ℤ) → a -ℤ pos 0 ≡ a
  unfolding ◌-ℤ◌
  sub-zero (pos n) = ground arith
  sub-zero (negsuc n) = ground arith

  -- A stored due time after 1970 that is a date is read and written back unchanged, where the two
  -- floating-point conversions undo one another on it.
  pub dt_to_ms-ms_to_dt :
      (n : ℕ) (wall : ℤ)
      → fl.from_ms (pos (suc n)) ≡ some wall
      → fl.to_ms wall ≡ pos (suc n)
      → (do d ← ms_to_dt (pos (suc n)); some (dt_to_ms d)) ≡ some (pos (suc n))
  unfolding dt_to_ms ms_to_dt
  dt_to_ms-ms_to_dt n wall e h = rw e (ground (arith, sub-zero wall))

  -- A due time at or before 1970 is stored, and read as none.
  pub ms_to_dt-nonpos : (ms : ℤ) → leb_ℤ ms (pos 0) ≡ true → ms_to_dt ms ≡ some none
  unfolding ms_to_dt
  ms_to_dt-nonpos ms h = ground arith
