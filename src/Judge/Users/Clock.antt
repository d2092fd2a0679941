-- ===== src/Judge/Users/Clock.antt =====
-- `time.Time.UnixMilli` and `time.UnixMilli`, on instants in nanoseconds since 1970.
use oiaj.Base.{◌+◌, ◌*◌, ◌/◌, arith}
use oiaj.Base.Int.{ℤ, pos, negsuc, ◌≤ℤ◌, ◌<ℤ◌, ◌+ℤ◌}

-- Rounds down, also before 1970.
unfoldable pub unix_milli : ℤ → ℤ
unix_milli (pos n) = pos (n / 1000000)
unix_milli (negsuc n) = negsuc (n / 1000000)

unfoldable pub from_milli : ℤ → ℤ
from_milli (pos n) = pos (n * 1000000)
from_milli (negsuc n) = negsuc (n * 1000000 + 999999)

-- The instant that is read back is not after the one that was stored, and less than a millisecond
-- before it.
pub from_milli-unix_milli :
    (t : ℤ) → (from_milli (unix_milli t) ≤ℤ t) × (t <ℤ from_milli (unix_milli t) +ℤ pos 1000000)
unfolding from_milli unix_milli ◌+ℤ◌
from_milli-unix_milli (pos n) = ground arith
from_milli-unix_milli (negsuc n) = ground arith
