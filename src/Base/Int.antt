-- ===== src/Base/Int.antt =====
-- Signed 64-bit integers: ℤ over the native numbers, and the big-endian bytes of an `i64`.
use Prim.Native.Nat.{ℕ, zero, suc, ◌+◌, ◌-◌, ◌*◌, ◌/◌, ◌%◌, ◌^◌, ◌≤◌, ◌<◌}
use mathlib.Core.Path.{◌≡◌, refl}
use mathlib.Core.Bool.{Bool}
use mathlib.Core.List.{List, [], ◌∷◌, ◌++◌}
use native.Mathlib.Omega.{arith}
use kerplace.Base.Tests.{ltb, leb, if◌then◌else◌}
use kerplace.Base.Lists.{length, length-append}

-- `negsuc n` is -(n + 1).
pub data ℤ : Type 0 where
  pos : ℕ → ℤ
  negsuc : ℕ → ℤ

abbrev pub pos_part : ℤ → ℕ
pos_part (pos n) = n
pos_part (negsuc n) = 0

abbrev pub neg_part : ℤ → ℕ
neg_part (pos n) = 0
neg_part (negsuc n) = suc n

abbrev pub sub_ℕ : ℕ → ℕ → ℤ
sub_ℕ a b = if leb b a then pos (a - b) else negsuc (b - a - 1)

infixl 65 ◌+ℤ◌ ◌-ℤ◌
infix 50 ◌≤ℤ◌ ◌<ℤ◌
unfoldable pub ◌+ℤ◌ : ℤ → ℤ → ℤ
a +ℤ b = sub_ℕ (pos_part a + pos_part b) (neg_part a + neg_part b)

unfoldable pub ◌-ℤ◌ : ℤ → ℤ → ℤ
a -ℤ b = sub_ℕ (pos_part a + neg_part b) (neg_part a + pos_part b)

abbrev pub ◌≤ℤ◌ : ℤ → ℤ → Type 0
a ≤ℤ b = pos_part a + neg_part b ≤ pos_part b + neg_part a

abbrev pub ◌<ℤ◌ : ℤ → ℤ → Type 0
a <ℤ b = pos_part a + neg_part b < pos_part b + neg_part a

abbrev pub leb_ℤ : ℤ → ℤ → Bool
leb_ℤ a b = leb (pos_part a + neg_part b) (pos_part b + neg_part a)

abbrev pub ltb_ℤ : ℤ → ℤ → Bool
ltb_ℤ a b = ltb (pos_part a + neg_part b) (pos_part b + neg_part a)

-- The `k` big-endian bytes of a number, and the number of such bytes.
unfoldable pub be_bytes : ℕ → ℕ → List ℕ
be_bytes zero n = []
be_bytes (suc k) n = be_bytes k (n / 256) ++ (n % 256) ∷ []

unfoldable pub from_be : ℕ → List ℕ → ℕ
from_be acc [] = acc
from_be acc (b ∷ bs) = from_be (acc * 256 + b) bs

from_be-append : (acc b : ℕ) (bs : List ℕ) → from_be acc (bs ++ b ∷ []) ≡ from_be acc bs * 256 + b
unfolding from_be
from_be-append acc b [] = refl
from_be-append acc b (c ∷ bs) = from_be-append (acc * 256 + c) b bs

pub length-be_bytes : (k n : ℕ) → length (be_bytes k n) ≡ k
unfolding be_bytes
length-be_bytes zero n = refl
length-be_bytes (suc k) n =
    omega
      (arith, length-append (be_bytes k (n / 256)) ((n % 256) ∷ []), length-be_bytes k (n / 256))

-- the bound of `k` bytes
unfoldable pub below_bytes : ℕ → ℕ
below_bytes zero = 1
below_bytes (suc k) = 256 * below_bytes k

pub from_be-be_bytes : (k n : ℕ) → n < below_bytes k → from_be 0 (be_bytes k n) ≡ n
unfolding be_bytes below_bytes
from_be-be_bytes zero n h = unfold from_be in omega arith
from_be-be_bytes (suc k) n h = omega (
  arith,
  from_be-append 0 (n % 256) (be_bytes k (n / 256)),
  from_be-be_bytes k (n / 256) (omega arith),
)

-- `i64::to_be_bytes` and `i64::from_be_bytes`: two's complement.
unfoldable pub to_be_bytes : ℤ → List ℕ
to_be_bytes (pos n) = be_bytes 8 n
to_be_bytes (negsuc n) = be_bytes 8 (2 ^ 64 - 1 - n)

abbrev signed : ℕ → ℤ
signed n = if ltb n (2 ^ 63) then pos n else negsuc (2 ^ 64 - 1 - n)

unfoldable pub from_be_bytes : List ℕ → ℤ
from_be_bytes bs = signed (from_be 0 bs)

-- The range of an `i64`.
abbrev pub IsI64 : ℤ → Type 0
IsI64 z = (pos_part z < 2 ^ 63) × (neg_part z ≤ 2 ^ 63)

pub length-to_be_bytes : (z : ℤ) → length (to_be_bytes z) ≡ 8
unfolding to_be_bytes
length-to_be_bytes (pos n) = length-be_bytes 8 n
length-to_be_bytes (negsuc n) = length-be_bytes 8 (2 ^ 64 - 1 - n)

eight_bytes : (n : ℕ) → n < 2 ^ 64 → from_be 0 (be_bytes 8 n) ≡ n
eight_bytes n h = from_be-be_bytes 8 n (unfold below_bytes in omega arith)

pub from_be_bytes-to_be_bytes : (z : ℤ) → IsI64 z → from_be_bytes (to_be_bytes z) ≡ z
unfolding from_be_bytes to_be_bytes
from_be_bytes-to_be_bytes (pos n) h = rw (eight_bytes n (omega arith)) (ground arith)
from_be_bytes-to_be_bytes (negsuc n) h =
    rw (eight_bytes (2 ^ 64 - 1 - n) (omega arith)) (ground arith)
