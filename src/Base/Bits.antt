-- ===== src/Base/Bits.antt =====
-- Flags in one byte, `v |= flag` and `(v & flag) != 0`, as arithmetic: tables checked by evaluation.
use Prim.Native.Nat.{ℕ, zero, suc, ◌+◌, ◌*◌, ◌/◌, ◌%◌, ◌≤◌, ◌<◌, bit_and, bit_or}
use mathlib.Core.Path.{◌≡◌, refl}
use mathlib.Core.Bool.{Bool, true, false, ◌&&◌, ◌||◌, not}
use native.Mathlib.Omega.{arith}
use opcua_tsn_lo_i.Base.Tests.{ltb, ◌==◌, if◌then◌else◌}

-- `if(b) v |= flag;`
unfoldable pub or_flag : Bool → ℕ → ℕ → ℕ
or_flag b flag v = if b then bit_or v flag else v

unfoldable pub is_set : ℕ → ℕ → Bool
is_set v flag = ltb 0 (bit_and v flag)

-- A table of the bytes below a bound, checked by evaluation.
tabled : (ℕ → Bool) → ℕ → Bool
tabled p zero = true
tabled p (suc n) = if p n then tabled p n else false

tabled-at : (p : ℕ → Bool) (n v : ℕ) → v < n → tabled p n ≡ true → p v ≡ true
unfolding tabled
tabled-at p zero v below whole = absurd (omega arith)
tabled-at p (suc n) v below whole = ground (arith, tabled-at p n v)

sets : ℕ → ℕ → Bool
sets flag v = not (v / flag % 2 == 0) || (bit_or v flag == v + flag)

reads : ℕ → ℕ → Bool
reads flag v = bit_and v flag == v / flag % 2 * flag

pub record IsFlag (flag : ℕ) : Type 0 where
  pos : 0 < flag
  table : tabled (λ v. sets flag v && reads flag v) 256 ≡ true

pub bit : Bool → ℕ
bit b = if b then 1 else 0

pub bit-le : (b : Bool) → bit b ≤ 1
unfolding bit
bit-le true = omega arith
bit-le false = omega arith

pub bit-true : (b : Bool) → b ≡ true → bit b ≡ 1
unfolding bit
bit-true b h = ground arith

pub bit-false : (b : Bool) → b ≡ false → bit b ≡ 0
unfolding bit
bit-false b h = ground arith

module _ (flag v : ℕ) (f : IsFlag flag) (byte : v < 256) where
  entry : (sets flag v && reads flag v) ≡ true
  entry = tabled-at (λ u. sets flag u && reads flag u) 256 v byte f.table

  pub or_flag_lem : (b : Bool) → v / flag % 2 ≡ 0 → or_flag b flag v ≡ v + flag * bit b
  unfolding or_flag sets bit
  or_flag_lem b h = ground (arith, entry)

  pub is_set_lem : (b : Bool) → v / flag % 2 ≡ bit b → is_set v flag ≡ b
  unfolding is_set reads bit
  is_set_lem b h = ground (arith, entry, f.pos)

-- A group of bits: `low` is its lowest bit, and it holds the numbers below `span`.
cuts : ℕ → ℕ → ℕ → ℕ → Bool
cuts mask low span v = bit_and v mask == v / low % span * low

pub record IsMask (mask low span : ℕ) : Type 0 where
  mask_table : tabled (cuts mask low span) 256 ≡ true

-- A group of bits of a byte that is known as a sum.
pub bit_and-sum :
    (mask low span s v x : ℕ)
    → IsMask mask low span
    → v ≡ s
    → s < 256
    → s / low % span ≡ x
    → bit_and v mask ≡ x * low
unfolding cuts
bit_and-sum mask low span s v x m e h k =
    let t = tabled-at (cuts mask low span) 256 s h m.mask_table in rw e (ground arith)

-- One more flag on a byte that is known as a sum.
pub or_flag-sum :
    (flag s v : ℕ) (b : Bool)
    → IsFlag flag
    → v ≡ s
    → s < 256
    → s / flag % 2 ≡ 0
    → or_flag b flag v ≡ s + flag * bit b
or_flag-sum flag s v b f e h k = rw e (or_flag_lem flag s f h b k)

-- A flag of a byte that is known as a sum.
pub is_set-sum :
    (flag s v : ℕ) (b : Bool)
    → IsFlag flag
    → v ≡ s
    → s < 256
    → s / flag % 2 ≡ bit b
    → is_set v flag ≡ b
is_set-sum flag s v b f e h k = rw e (is_set_lem flag s f h b k)

pub IsFlag-1 : IsFlag 1
unfolding tabled sets reads
IsFlag-1 = record { pos = omega arith; table = refl }

pub IsFlag-2 : IsFlag 2
unfolding tabled sets reads
IsFlag-2 = record { pos = omega arith; table = refl }

pub IsFlag-4 : IsFlag 4
unfolding tabled sets reads
IsFlag-4 = record { pos = omega arith; table = refl }

pub IsFlag-8 : IsFlag 8
unfolding tabled sets reads
IsFlag-8 = record { pos = omega arith; table = refl }

pub IsFlag-16 : IsFlag 16
unfolding tabled sets reads
IsFlag-16 = record { pos = omega arith; table = refl }

pub IsFlag-32 : IsFlag 32
unfolding tabled sets reads
IsFlag-32 = record { pos = omega arith; table = refl }

pub IsFlag-64 : IsFlag 64
unfolding tabled sets reads
IsFlag-64 = record { pos = omega arith; table = refl }

pub IsFlag-128 : IsFlag 128
unfolding tabled sets reads
IsFlag-128 = record { pos = omega arith; table = refl }

pub IsMask-6 : IsMask 6 2 4
unfolding tabled cuts
IsMask-6 = record { mask_table = refl }

pub IsMask-7 : IsMask 7 1 8
unfolding tabled cuts
IsMask-7 = record { mask_table = refl }

pub IsMask-15 : IsMask 15 1 16
unfolding tabled cuts
IsMask-15 = record { mask_table = refl }

pub IsMask-28 : IsMask 28 4 8
unfolding tabled cuts
IsMask-28 = record { mask_table = refl }
