-- ===== src/ClassFile/Wire/Reads.antt =====
-- The readers of words, texts, lists and maps take what the writers wrote.
use polyloft_bvm.Prelude.{
  ℕ, ◌%◌, ◌^◌, ◌<◌, ◌≡◌, refl, ap, ◌∙◌, true, List, Text, TextMap, IsMap, length, All, All-map, leb,
  arith, sort_by_key, length-sort_by_key, All-sort_by_key, IsMap-sort_by_key,
}
use polyloft_bvm.Prelude.Word.{IsByte, IsU16, IsU32, IsU64}
use polyloft_bvm.Binary.{Writer, Reader, le_bytes, from_le, emit, read_full, ◌>>◌, ◌>>=◌, give}
use polyloft_bvm.Binary.Reads.{
  Reads, Reads-seq, Reads-last, Reads-byte, Reads-full, Reads-each, from_le-le_bytes,
}
use polyloft_bvm.Bytecode.RoundTrip.{Reads-map}
use polyloft_bvm.ClassFile.Wire.{
  be_bytes, from_be, write_u1, write_u2, write_u4, write_u8, read_u1, read_u2, read_u4, read_u8,
  write_utf8, read_utf8, write_string_list, read_string_list, write_u2_list, read_u2_list,
  write_map, read_text_map,
}
use mathlib.Core.List.{reverse-reverse}

from_be-be_bytes : (width v : ℕ) → v < 256 ^ width → from_be (be_bytes width v) ≡ v
unfolding be_bytes from_be
from_be-be_bytes width v h =
    ap from_le (reverse-reverse (le_bytes width v)) ∙ from_le-le_bytes width v h

-- The lengths that a 16-bit count can hold.
abbrev pub Short16 {ℓ} : {A : Type ℓ} → List A → Type 0
Short16 list = IsU16 (length list)

abbrev pub ShortTexts16 : List Text → Type 0
ShortTexts16 list = Short16 list × All (λ (s : Text). Short16 s) list

-- The list that stands for a map: no key is repeated, and the keys are in order.
abbrev pub Listed {ℓ} : {V : Type ℓ} → TextMap V → Type ℓ
Listed m = IsMap m × (sort_by_key m ≡ m)

-- A map that the format holds.
pub record FitsMap {V : Type 0} (Fits : V → Type 0) (m : TextMap V) : Type 0 where
  pub few : Short16 m
  pub listed : Listed m
  pub entries : All (λ e. Short16 e.0 × Fits e.1) m

module _ {S T : Type 0} (R : S → T → Type 0) where
  -- Words of two, four and eight bytes.
  word :
      (width v : ℕ)
      → length (be_bytes width v) ≡ width
      → v < 256 ^ width
      → Reads R (emit (be_bytes width v)) (read_full width >>= λ bs. give (from_be bs)) v
  word width v e h =
      let raw : Reads R (emit (be_bytes width v)) (read_full width) (be_bytes width v) =
        rw e at (Reads-full R (be_bytes width v)) in
      rw (from_be-be_bytes width v h) at (Reads-last R from_be raw)

  pub Reads-u1 : (v : ℕ) → IsByte v → Reads R (write_u1 v) read_u1 v
  unfolding write_u1 read_u1
  Reads-u1 v h = let e : v % 256 ≡ v = omega arith in rw e (Reads-byte R v)

  pub Reads-u2 : (v : ℕ) → IsU16 v → Reads R (write_u2 v) read_u2 v
  unfolding write_u2 read_u2
  Reads-u2 v h =
      let e : v % 2 ^ 16 ≡ v = omega arith in
      rw e (word 2 v (unfold be_bytes le_bytes in refl) (omega arith))

  pub Reads-u4 : (v : ℕ) → IsU32 v → Reads R (write_u4 v) read_u4 v
  unfolding write_u4 read_u4
  Reads-u4 v h =
      let e : v % 2 ^ 32 ≡ v = omega arith in
      rw e (word 4 v (unfold be_bytes le_bytes in refl) (omega arith))

  pub Reads-u8 : (v : ℕ) → IsU64 v → Reads R (write_u8 v) read_u8 v
  unfolding write_u8 read_u8
  Reads-u8 v h =
      let e : v % 2 ^ 64 ≡ v = omega arith in
      rw e (word 8 v (unfold be_bytes le_bytes in refl) (omega arith))

  pub Reads-utf8 : (s : Text) → Short16 s → Reads R (write_utf8 s) read_utf8 s
  unfolding write_utf8 read_utf8
  Reads-utf8 s h =
      let fits : leb (length s) 65535 ≡ true = ground arith in
      rw fits (Reads-seq R _ (Reads-u2 (length s) h) (Reads-full R s))

  pub Reads-string_list :
      (list : List Text)
      → ShortTexts16 list
      → Reads R (write_string_list list) read_string_list list
  unfolding write_string_list read_string_list
  Reads-string_list list h =
      Reads-seq R _ (Reads-u2 (length list) h.0)
        (Reads-each R write_utf8 read_utf8 list (All-map Reads-utf8 list h.1))

  pub Reads-u2_list :
      (list : List ℕ)
      → Short16 list × All IsU16 list
      → Reads R (write_u2_list list) read_u2_list list
  unfolding write_u2_list read_u2_list
  Reads-u2_list list h =
      Reads-seq R _ (Reads-u2 (length list) h.0)
        (Reads-each R write_u2 read_u2 list (All-map Reads-u2 list h.1))

  module _ {V : Type 0} (write : V → Writer S) (read : Reader T V) (Fits : V → Type 0)
      (codec : (v : V) → Fits v → Reads R (write v) read v) where
    -- A map of the format: its count, keys and values fit, and no key is repeated.
    abbrev pub FitsEntry : Text × V → Type 0
    FitsEntry e = Short16 e.0 × Fits e.1

    entry-Reads :
        (e : Text × V)
        → FitsEntry e
        → Reads R (write_utf8 e.0 >> write e.1) (read_utf8 >>= λ key. read >>= λ v. give (key, v)) e
    entry-Reads e h =
        Reads-seq R _ (Reads-utf8 e.0 h.0) (Reads-last R (λ v. (e.0, v)) (codec e.1 h.1))

    pub Reads-text_map :
        (m : TextMap V)
        → Short16 m
        → IsMap m
        → All FitsEntry m
        → Reads R (write_map write m) (read_text_map read) (sort_by_key m)
    unfolding write_map read_text_map
    Reads-text_map m h map hs =
        let sorted = sort_by_key m in
        let entries =
          Reads-map R (λ e. write_utf8 e.0 >> write e.1)
            (read_utf8 >>= λ key. read >>= λ v. give (key, v)) sorted (IsMap-sort_by_key m map)
            (All-map entry-Reads sorted (All-sort_by_key FitsEntry m hs)) in
        Reads-seq R _ (Reads-u2 (length m) h) (rw (length-sort_by_key m) at entries)

    -- A map that is listed in the order of its keys.
    pub Reads-listed :
        (m : TextMap V) → FitsMap Fits m → Reads R (write_map write m) (read_text_map read) m
    Reads-listed m h = rw (h.listed.1) at (Reads-text_map m h.few h.listed.0 h.entries)
