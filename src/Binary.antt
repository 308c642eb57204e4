-- ===== src/Binary.antt =====
-- What the codecs use of Go's `encoding/binary` and `io`: little-endian words written to a buffer,
-- which never fails, and read from a list of bytes. A codec threads a state of its own.
pub mod Reads
use polyloft_bvm.Prelude.{
  ℕ, zero, suc, ◌+◌, ◌*◌, ◌/◌, ◌%◌, ◌^◌, Bool, true, false, not, List, [], ◌∷◌, ◌++◌, Option, none,
  some, ◌==◌, if◌then◌else◌, length, take, drop, leb,
}
use polyloft_bvm.Prelude.Word.{sign_extend32}

pub data Problem : Type 0 where
  unexpected_eof unsupported_constant out_of_fuel bad_header : Problem
  unsupported_tag too_large bad_index : ℕ → Problem

pub data Result {ℓ} (A : Type ℓ) : Type ℓ where
  ok : A → Result A
  err : Problem → Result A

abbrev pub Bytes : Type 0
Bytes = List ℕ

-- A writer appends bytes, in its codec's state.
abbrev pub Writer : Type 0 → Type 0
Writer S = S → Result (Bytes × S)

abbrev pub Reader {ℓ} : Type 0 → Type ℓ → Type ℓ
Reader S A = Bytes → S → Result (A × Bytes × S)

-- `if err := first; err != nil { return err }`, then the second.
infixl 5 ◌>>◌ ◌>>=◌
unfoldable pub ◌>>◌ : {S : Type 0} → Writer S → Writer S → Writer S
◌>>◌ w v s = elim (w s) [
  | err p ↦ err p
  | ok (bs, s') ↦ elim (v s') [ err p ↦ err p | ok (cs, s'') ↦ ok (bs ++ cs, s'') ]
]

unfoldable pub ◌>>=◌ {ℓ κ} :
    {S : Type 0} {A : Type ℓ} {B : Type κ} → Reader S A → (A → Reader S B) → Reader S B
◌>>=◌ r f bs s = elim (r bs s) [ err p ↦ err p | ok (a, bs', s') ↦ f a bs' s' ]

unfoldable pub give {ℓ} : {S : Type 0} {A : Type ℓ} → A → Reader S A
give a bs s = ok (a, bs, s)

-- The `width` low bytes of `v`, lowest first.
unfoldable pub le_bytes : ℕ → ℕ → Bytes
le_bytes zero v = []
le_bytes (suc width) v = (v % 256) ∷ le_bytes width (v / 256)

unfoldable pub from_le : Bytes → ℕ
from_le [] = 0
from_le (b ∷ bs) = b + 256 * from_le bs

module _ {S : Type 0} where
  -- `w.Write(bs)`.
  unfoldable pub emit : Bytes → Writer S
  emit bs s = ok (bs, s)

  unfoldable pub write_byte : ℕ → Writer S
  unfolding emit
  write_byte b = emit (b ∷ [])

  -- `return err` of a writer.
  unfoldable pub refuse : Problem → Writer S
  refuse p s = err p

  -- `binary.Write` of a word; `width` counts its bytes.
  unfoldable pub write_word : ℕ → ℕ → Writer S
  unfolding emit
  write_word width v = emit (le_bytes width v)

  -- `uint32(n)`; `int32(n)` has the same bits.
  unfoldable pub write_u32 : ℕ → Writer S
  write_u32 v = write_word 4 (v % 2 ^ 32)

  unfoldable pub write_bool : Bool → Writer S
  write_bool b = write_byte (if b then 1 else 0)

  -- `io.ReadFull` of `n` bytes.
  unfoldable pub read_full : ℕ → Reader S Bytes
  read_full n bs s = if leb n (length bs) then ok (take n bs, drop n bs, s) else err unexpected_eof

  unfoldable pub read_byte : Reader S ℕ
  read_byte [] s = err unexpected_eof
  read_byte (b ∷ bs) s = ok (b, bs, s)

  unfoldable pub read_word : ℕ → Reader S ℕ
  read_word width = do bs ← read_full width; give (from_le bs)

  unfoldable pub read_u32 : Reader S ℕ
  read_u32 = read_word 4

  -- An int32, converted to `int`.
  unfoldable pub read_i32 : Reader S ℕ
  read_i32 = do v ← read_word 4; give (sign_extend32 v)

  -- `binary.Read` into a bool.
  unfoldable pub read_bool : Reader S Bool
  read_bool = do b ← read_byte; give (not (b == 0))

module _ {ℓ} {S : Type 0} {A : Type ℓ} where
  -- `for _, a := range list { write(a) }`.
  unfoldable pub write_each : (A → Writer S) → List A → Writer S
  unfolding emit
  write_each write [] = emit []
  write_each write (a ∷ rest) = write a >> write_each write rest

  -- `for i := 0; i < n; i++ { list[i] = read() }`.
  unfoldable pub read_each : Reader S A → ℕ → Reader S (List A)
  read_each read zero = give []
  read_each read (suc n) = do a ← read; rest ← read_each read n; give (a ∷ rest)
