-- ===== src/Prelude/Int.antt =====
-- Signed integers over the native numbers, under the library's names, and the C integer types:
-- division that truncates towards 0, and the wrap-around of a conversion to a w-bit type.
use Prim.Native.Nat.{ℕ, suc, ◌+◌, ◌-◌, ◌*◌, ◌/◌, ◌%◌, ◌^◌, ◌≤◌, ◌<◌}
use mathlib.Core.Path.{◌≡◌, refl}
use mathlib.Core.Logic.{◌⊎◌, inl, inr}
use mathlib.Core.Bool.{Bool, true}
use native.Mathlib.Omega.{arith}
use libposix.Prelude.Tests.{ltb, leb, ◌==◌, if◌then◌else◌}

-- `negsuc n` is -(n + 1).
pub data ℤ : Type 0 where
  pos : ℕ → ℤ
  negsuc : ℕ → ℤ

abbrev pub pos_part : ℤ → ℕ
pos_part (pos n) = n
pos_part (negsuc n) = 0

abbrev pub neg_part : ℤ → ℕ
neg_part (pos n) = 0
neg_part (negsuc n) = suc n

-- a - b, as an integer.
abbrev pub sub_ℕ : ℕ → ℕ → ℤ
sub_ℕ a b = if leb b a then pos (a - b) else negsuc (b - a - 1)

infixl 65 ◌+ℤ◌ ◌-ℤ◌
infixl 70 ◌*ℤ◌
infix 50 ◌≤ℤ◌ ◌<ℤ◌
unfoldable pub ◌+ℤ◌ : ℤ → ℤ → ℤ
a +ℤ b = sub_ℕ (pos_part a + pos_part b) (neg_part a + neg_part b)

unfoldable pub ◌-ℤ◌ : ℤ → ℤ → ℤ
a -ℤ b = sub_ℕ (pos_part a + neg_part b) (neg_part a + pos_part b)

-- A multiple of an integer, `n` times `z`.
unfoldable pub ◌*ℤ◌ : ℕ → ℤ → ℤ
n *ℤ z = sub_ℕ (n * pos_part z) (n * neg_part z)

-- `z / d` and `z % d` of C, for `d > 0`: the quotient is truncated towards 0.
unfoldable pub quot : ℤ → ℕ → ℤ
quot z d = sub_ℕ (pos_part z / d) (neg_part z / d)

unfoldable pub rem : ℤ → ℕ → ℤ
rem z d = sub_ℕ (pos_part z % d) (neg_part z % d)

abbrev pub ◌≤ℤ◌ : ℤ → ℤ → Type 0
a ≤ℤ b = pos_part a + neg_part b ≤ pos_part b + neg_part a

abbrev pub ◌<ℤ◌ : ℤ → ℤ → Type 0
a <ℤ b = pos_part a + neg_part b < pos_part b + neg_part a

abbrev pub ltb_ℤ : ℤ → ℤ → Bool
ltb_ℤ a b = ltb (pos_part a + neg_part b) (pos_part b + neg_part a)

abbrev pub eqb_ℤ : ℤ → ℤ → Bool
eqb_ℤ a b = pos_part a + neg_part b == pos_part b + neg_part a

-- The value of a two's complement pattern `w`, below `2 * half`.
abbrev pub signed_of : ℕ → ℕ → ℤ
signed_of half w = if ltb w half then pos w else negsuc (half + half - 1 - w)

-- Conversions to int32_t, int64_t, uint32_t and uint16_t, with their wrap-around.
unfoldable pub int32 : ℤ → ℤ
int32 (pos n) = signed_of (2 ^ 31) (n % 2 ^ 32)
int32 (negsuc n) = signed_of (2 ^ 31) (2 ^ 32 - 1 - n % 2 ^ 32)

unfoldable pub int64 : ℤ → ℤ
int64 (pos n) = signed_of (2 ^ 63) (n % 2 ^ 64)
int64 (negsuc n) = signed_of (2 ^ 63) (2 ^ 64 - 1 - n % 2 ^ 64)

unfoldable pub uint32 : ℤ → ℕ
uint32 (pos n) = n % 2 ^ 32
uint32 (negsuc n) = 2 ^ 32 - 1 - n % 2 ^ 32

unfoldable pub uint16 : ℤ → ℕ
uint16 (pos n) = n % 2 ^ 16
uint16 (negsuc n) = 2 ^ 16 - 1 - n % 2 ^ 16

-- One lemma for each operation lets `omega` work with the operations shut.
pub +ℤ_parts :
    (a b : ℤ)
    → pos_part (a +ℤ b) + neg_part a + neg_part b ≡ neg_part (a +ℤ b) + pos_part a + pos_part b
unfolding ◌+ℤ◌
+ℤ_parts a b = ground arith

pub -ℤ_parts :
    (a b : ℤ)
    → pos_part (a -ℤ b) + neg_part a + pos_part b ≡ neg_part (a -ℤ b) + pos_part a + neg_part b
unfolding ◌-ℤ◌
-ℤ_parts a b = ground arith

pub eq_of_parts : (a b : ℤ) → pos_part a + neg_part b ≡ pos_part b + neg_part a → a ≡ b
eq_of_parts a b h = ground arith

pub +ℤ_pos : (a b : ℕ) → pos a +ℤ pos b ≡ pos (a + b)
unfolding ◌+ℤ◌
+ℤ_pos a b = ground arith

pub *ℤ_pos : (n a : ℕ) → n *ℤ pos a ≡ pos (n * a)
unfolding ◌*ℤ◌
*ℤ_pos n a = ground arith

-- An integer has one part at most.
pub one_part : (z : ℤ) → (pos_part z ≡ 0) ⊎ (neg_part z ≡ 0)
one_part (pos n) = inr refl
one_part (negsuc n) = inl refl

pub int32_fits : (z : ℤ) → pos_part z < 2 ^ 31 → neg_part z ≤ 2 ^ 31 → int32 z ≡ z
unfolding int32
int32_fits (pos n) p q = ground arith
int32_fits (negsuc n) p q = ground arith

pub int64_fits : (z : ℤ) → pos_part z < 2 ^ 63 → neg_part z ≤ 2 ^ 63 → int64 z ≡ z
unfolding int64
int64_fits (pos n) p q = ground arith
int64_fits (negsuc n) p q = ground arith

pub ruleset int_laws = (arith, +ℤ_parts, -ℤ_parts, eq_of_parts)

pub uint32-add_one : (z : ℤ) → uint32 (int32 (z +ℤ pos 1)) ≡ (uint32 z + 1) % 2 ^ 32
unfolding uint32 int32 ◌+ℤ◌
uint32-add_one (pos n) = ground arith
uint32-add_one (negsuc n) = ground arith

pub uint32-sub_one : (z : ℤ) → (uint32 (int32 (z -ℤ pos 1)) + 1) % 2 ^ 32 ≡ uint32 z
unfolding uint32 int32 ◌-ℤ◌
uint32-sub_one (pos n) = ground arith
uint32-sub_one (negsuc n) = ground arith

-- Counting up and down within the range of an int.
pub int32-add_one :
    (z : ℤ)
    → neg_part z ≡ 0
    → pos_part z + 1 < 2 ^ 31
    → (neg_part (int32 (z +ℤ pos 1)) ≡ 0) × (pos_part (int32 (z +ℤ pos 1)) ≡ pos_part z + 1)
unfolding int32 ◌+ℤ◌
int32-add_one z h r = ground arith

pub int32-sub_one :
    (z : ℤ)
    → ltb_ℤ (pos 0) z ≡ true
    → pos_part z < 2 ^ 31
    → (neg_part (int32 (z -ℤ pos 1)) ≡ 0) × (pos_part (int32 (z -ℤ pos 1)) + 1 ≡ pos_part z)
unfolding int32 ◌-ℤ◌
int32-sub_one z h r = ground arith

pub uint32_fits : (z : ℤ) → neg_part z ≡ 0 → pos_part z < 2 ^ 32 → uint32 z ≡ pos_part z
unfolding uint32
uint32_fits z h r = ground arith
