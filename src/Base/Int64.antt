-- ===== src/Base/Int64.antt =====
-- Go's int64: an integer, with every sum, difference and product wrapped to 64 bits. `residue` is
-- the bit pattern, on which wrapped arithmetic is arithmetic modulo 2 ^ 64.
use Prim.Native.Nat.{ℕ, ◌+◌, ◌-◌, ◌%◌, ◌^◌, ◌≤◌, ◌<◌}
use mathlib.Core.Path.{◌≡◌, refl}
use native.Mathlib.Omega.{arith}
use pixie_block.Base.Tests.{ltb, if◌then◌else◌}
use pixie_block.Base.Int.{
  ℤ, pos, negsuc, pos_part, neg_part, ◌+ℤ◌, ◌-ℤ◌, ◌*ℤ◌, ◌≤ℤ◌, +ℤ_parts, -ℤ_parts,
}

abbrev pub u64_mod : ℕ
u64_mod = 2 ^ 64

-- The bit pattern of the 64 low bits.
unfoldable pub residue : ℤ → ℕ
residue (pos n) = n % u64_mod
residue (negsuc n) = u64_mod - 1 - n % u64_mod

-- The signed value of a bit pattern.
abbrev pub signed64 : ℕ → ℤ
signed64 w = if ltb w (2 ^ 63) then pos w else negsuc (2 ^ 64 - 1 - w)

unfoldable pub wrap64 : ℤ → ℤ
unfolding residue
wrap64 z = signed64 (residue z)

pub record IsInt64 (z : ℤ) : Type 0 where
  pub above : neg_part z ≤ 2 ^ 63
  pub below : pos_part z < 2 ^ 63

abbrev pub max_int64 : ℤ
max_int64 = pos (2 ^ 63 - 1)

abbrev pub min_int64 : ℤ
min_int64 = negsuc (2 ^ 63 - 1)

pub IsInt64-of_bounds : (z : ℤ) → min_int64 ≤ℤ z → z ≤ℤ max_int64 → IsInt64 z
IsInt64-of_bounds z lo hi = ground arith

unfoldable pub add64 : ℤ → ℤ → ℤ
add64 a b = wrap64 (a +ℤ b)

unfoldable pub sub64 : ℤ → ℤ → ℤ
sub64 a b = wrap64 (a -ℤ b)

unfoldable pub mul64 : ℤ → ℤ → ℤ
mul64 a b = wrap64 (a *ℤ b)

pub residue-lt : (z : ℤ) → residue z < u64_mod
unfolding residue
residue-lt z = ground arith

-- residue z ≡ z (mod 2 ^ 64), in a form that `omega` reads.
pub residue_parts : (z : ℤ) → (residue z + neg_part z) % u64_mod ≡ pos_part z % u64_mod
unfolding residue
residue_parts z = ground arith

pub residue-wrap64 : (z : ℤ) → residue (wrap64 z) ≡ residue z
unfolding wrap64 residue
residue-wrap64 z = ground arith

pub wrap64-IsInt64 : (z : ℤ) → IsInt64 (wrap64 z)
unfolding wrap64
wrap64-IsInt64 z = ground (arith, residue-lt z)

pub wrap64_exact : (z : ℤ) → IsInt64 z → wrap64 z ≡ z
unfolding wrap64 residue
wrap64_exact z h = ground arith

pub residue-+ℤ : (a b : ℤ) → residue (a +ℤ b) ≡ (residue a + residue b) % u64_mod
residue-+ℤ a b = omega (
  arith,
  residue-lt (a +ℤ b),
  +ℤ_parts a b,
  residue_parts a,
  residue_parts b,
  residue_parts (a +ℤ b),
)

pub residue_sub : (a b : ℤ) → (residue (a -ℤ b) + residue b) % u64_mod ≡ residue a
residue_sub a b =
    omega
      (arith, residue-lt a, -ℤ_parts a b, residue_parts a, residue_parts b, residue_parts (a -ℤ b))

pub residue_injective : (a b : ℤ) → IsInt64 a → IsInt64 b → residue a ≡ residue b → a ≡ b
unfolding residue
residue_injective a b ha hb h = ground arith

-- Wrapping an operand first makes no difference.
pub wrap64-add64 : (a b : ℤ) → add64 (wrap64 a) b ≡ wrap64 (a +ℤ b)
unfolding add64
wrap64-add64 a b =
    residue_injective _ _ (wrap64-IsInt64 _) (wrap64-IsInt64 _) (simp (residue-wrap64, residue-+ℤ))

pub add64-wrap64 : (a b : ℤ) → add64 a (wrap64 b) ≡ wrap64 (a +ℤ b)
unfolding add64
add64-wrap64 a b =
    residue_injective _ _ (wrap64-IsInt64 _) (wrap64-IsInt64 _) (simp (residue-wrap64, residue-+ℤ))

pub sub64_wraps : (a b : ℤ) → sub64 (wrap64 a) (wrap64 b) ≡ wrap64 (a -ℤ b)
unfolding sub64
sub64_wraps a b = residue_injective _ _ (wrap64-IsInt64 _) (wrap64-IsInt64 _) (
    simp residue-wrap64 (
      omega (
        arith,
        residue_sub (wrap64 a) (wrap64 b),
        residue_sub a b,
        residue-wrap64 a,
        residue-wrap64 b,
        residue-lt (wrap64 a -ℤ wrap64 b),
        residue-lt (a -ℤ b),
      )))

pub zero-IsInt64 : IsInt64 (pos 0)
zero-IsInt64 = record { above = omega arith; below = omega arith }

pub add64_wraps : (a b : ℤ) → add64 (wrap64 a) (wrap64 b) ≡ wrap64 (a +ℤ b)
unfolding add64
add64_wraps a b =
    residue_injective _ _ (wrap64-IsInt64 _) (wrap64-IsInt64 _) (simp (residue-wrap64, residue-+ℤ))

pub residue_zero : residue (pos 0) ≡ 0
unfolding residue
residue_zero = refl
