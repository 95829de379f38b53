-- ===== src/ApiServer/Ints.antt =====
-- Go's signed integers, as far as the options use them: a count of retries and durations in nanoseconds.
use hohapiserver.Base.{
  ℕ, suc, ◌+◌, ◌-◌, ◌/◌, ◌^◌, Bool, false, ltb, leb, Option, none, some, not, if◌then◌else◌,
}

pub data ℤ : Type 0 where
  pos : ℕ → ℤ
  negsuc : ℕ → ℤ

-- n > 0
abbrev pub positive : ℤ → Bool
positive (pos n) = ltb 0 n
positive (negsuc n) = false

-- a - b, as an integer.
abbrev pub difference : ℕ → ℕ → ℤ
difference a b = if leb b a then pos (a - b) else negsuc (b - a - 1)

-- The sum of two integers with no bounds.
unfoldable pub sum : ℤ → ℤ → ℤ
sum (pos a) (pos b) = pos (a + b)
sum (pos a) (negsuc b) = difference a (suc b)
sum (negsuc a) (pos b) = difference b (suc a)
sum (negsuc a) (negsuc b) = negsuc (suc (a + b))

-- The sum of two int values of 64 bits, which wraps around.
unfoldable pub wrap64 : ℤ → ℤ
wrap64 (pos n) = if ltb n (2 ^ 63) then pos n else negsuc (2 ^ 64 - n - 1)
wrap64 (negsuc n) = if ltb n (2 ^ 63) then negsuc n else pos (2 ^ 64 - n - 1)

-- n / 4, which is rounded towards zero.
unfoldable pub quarter : ℤ → ℤ
quarter (pos n) = pos (n / 4)
quarter (negsuc n) = difference 0 (suc n / 4)

-- wait.Backoff, as far as it is read.
pub record Backoff : Type 0 where
  pub steps : ℤ

-- The pointer is not nil and Steps <= 0.
abbrev pub no_attempts : Option Backoff → Bool
no_attempts none = false
no_attempts (some b) = not (positive b.steps)
