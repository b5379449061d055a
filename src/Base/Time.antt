-- ===== src/Base/Time.antt =====
-- `time.Time` as nanoseconds since the zero time (year 1), `time.Duration` as an integer in the
-- range of an int64. `Time.Sub` saturates.
use Prim.Native.Nat.{ℕ, suc, ◌+◌, ◌-◌, ◌≤◌, ◌<◌, min}
use mathlib.Core.Path.{◌≡◌}
use mathlib.Core.Logic.{◌↔◌, ◌⊎◌}
use mathlib.Core.Bool.{Bool, true, false}
use native.Mathlib.Omega.{arith}
use etcd_play.Base.Tests.{ltb, leb, if◌then◌else◌}

-- `negsuc n` is -(n + 1).
pub data ℤ : Type 0 where
  pos : ℕ → ℤ
  negsuc : ℕ → ℤ

abbrev pub pos_part : ℤ → ℕ
pos_part (pos n) = n
pos_part (negsuc n) = 0

abbrev pub neg_part : ℤ → ℕ
neg_part (pos n) = 0
neg_part (negsuc n) = suc n

abbrev pub ltb_ℤ : ℤ → ℤ → Bool
ltb_ℤ a b = ltb (pos_part a + neg_part b) (pos_part b + neg_part a)

-- math.MaxInt64, the longest duration
abbrev pub max_duration : ℕ
max_duration = 9223372036854775807

-- now.Sub(last)
unfoldable pub since : ℕ → ℕ → ℤ
since now last =
    if leb last now
    then pos (min (now - last) max_duration)
    else negsuc (min (last - now - 1) max_duration)

abbrev pub second : ℕ
second = 1000000000

abbrev pub hour : ℕ
hour = 3600000000000

-- sub < limit, for a limit that is a Duration: what saturation leaves of it
pub since_lt_iff :
    (now last limit : ℕ)
    → limit ≤ max_duration
    → (ltb_ℤ (since now last) (pos limit) ≡ true) ↔ (now < last + limit) ⊎ (now < last)
unfolding since
since_lt_iff now last limit h = ground arith

-- limit < sub
pub lt_since_iff :
    (now last limit : ℕ)
    → limit < max_duration
    → (ltb_ℤ (pos limit) (since now last) ≡ true) ↔ (last + limit < now)
unfolding since
lt_since_iff now last limit h = ground arith

-- A limit that is not undercut has passed.
pub le_of_since :
    (now last limit : ℕ)
    → limit ≤ max_duration
    → ltb_ℤ (since now last) (pos limit) ≡ false
    → last + limit ≤ now
unfolding since
le_of_since now last limit h e = ground arith
