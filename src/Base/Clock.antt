-- ===== src/Base/Clock.antt =====
-- Aware UTC datetimes, as microseconds since 0001-01-01T00:00Z (the least one that Python has).
-- `timedelta.days` is a floor, so the whole days between two of them are a signed number.
use Prim.Native.Nat.{ℕ, ◌+◌, ◌-◌, ◌*◌, ◌/◌}
use mathlib.Core.Path.{◌≡◌}
use mathlib.Core.Bool.{Bool, true, false}
use mathlib.Core.Option.{Option, some}
use Prim.Native.String.{String}
use huntloop.Base.Tests.{ltb, leb, if◌then◌else◌}

abbrev pub Time : Type 0
Time = ℕ

abbrev pub microseconds : ℕ
microseconds = 1000000

abbrev pub day : ℕ
day = 86400000000

-- `negsuc n` is -(n + 1).
pub data ℤ : Type 0 where
  pos : ℕ → ℤ
  negsuc : ℕ → ℤ

-- `(a - b).days`
unfoldable pub days_between : Time → Time → ℤ
days_between a b = if leb b a then pos ((a - b) / day) else negsuc ((b - a - 1) / day)

abbrev pub is_negative : ℤ → Bool
is_negative (pos n) = false
is_negative (negsuc n) = true

abbrev pub exceeds : ℤ → ℕ → Bool
exceeds (pos n) k = ltb k n
exceeds (negsuc n) k = false

-- `(now - then).total_seconds() <= seconds`
abbrev pub within : Time → Time → ℕ → Bool
within now then_ seconds = leb now (then_ + seconds * microseconds)

-- `datetime.isoformat` and `datetime.fromisoformat`, which the standard library implements.
-- `parse` is `none` where the latter raises ValueError.
pub record Iso : Type 0 where
  pub format : Time → String
  pub parse : String → Option Time

-- What is documented of the two: an aware datetime is read back as it was written.
abbrev pub RoundTrips : Iso → Type 0
RoundTrips iso = (t : Time) → iso.parse (iso.format t) ≡ some t
