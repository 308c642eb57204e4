-- ===== src/Prelude/Word.antt =====
-- Machine words: bytes, little-endian 32- and 64-bit words, and Go's `int` as its 64-bit pattern.
use Prim.Native.Nat.{ℕ, ◌+◌, ◌-◌, ◌%◌, ◌^◌, ◌≤◌, ◌<◌}
use mathlib.Core.Path.{◌≡◌}
use mathlib.Core.Logic.{◌⊎◌}
use native.Mathlib.Omega.{arith}
use polyloft_bvm.Prelude.Tests.{ltb, if◌then◌else◌}

abbrev pub IsByte : ℕ → Type 0
IsByte b = b < 256

abbrev pub IsU16 : ℕ → Type 0
IsU16 v = v < 2 ^ 16

abbrev pub IsU32 : ℕ → Type 0
IsU32 v = v < 2 ^ 32

abbrev pub IsU64 : ℕ → Type 0
IsU64 v = v < 2 ^ 64

-- The 64-bit patterns of the integers between -2^31 and 2^31 - 1.
abbrev pub FitsInt32 : ℕ → Type 0
FitsInt32 v = (v < 2 ^ 31) ⊎ ((2 ^ 64 - 2 ^ 31 ≤ v) × (v < 2 ^ 64))

-- `int(w)` for an int32 `w`: the sign is extended to 64 bits.
abbrev pub sign_extend32 : ℕ → ℕ
sign_extend32 w = if ltb w (2 ^ 31) then w else w + (2 ^ 64 - 2 ^ 32)

pub sign_extend32_mod : (v : ℕ) → FitsInt32 v → sign_extend32 (v % 2 ^ 32) ≡ v
sign_extend32_mod v h = ground arith
