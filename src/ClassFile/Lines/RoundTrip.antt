-- ===== src/ClassFile/Lines/RoundTrip.antt =====
-- The line table stands for the lines of every offset.
use polyloft_bvm.Prelude.{
  ℕ, suc, ◌+◌, ◌-◌, ◌^◌, ◌<◌, ◌≤◌, ◌≡◌, refl, ap, true, false, not, ◌||◌, List, [], ◌∷◌, length,
  All, ◌==◌, Bool-cases, inl, inr, if_case, if◌then◌else◌, arith, All-map,
}
use polyloft_bvm.Prelude.Word.{IsU16}
use polyloft_bvm.Binary.Reads.{Reads-seq, Reads-last, Reads-each}
use polyloft_bvm.ClassFile.Wire.Reads.{Reads-u2}
use polyloft_bvm.ClassFile.Attribute.Reads.{Codec, Complete}
use polyloft_bvm.ClassFile.Pool.{Pool}
use polyloft_bvm.ClassFile.Lines.{
  LineEntry, compact, compact_lines, write_line, encode_line_number_table, enter, expand, read_line,
  decode_line_number_table,
}

-- Later entries wait for their offset.
enter_later :
    (o c k last : ℕ) (lines : List ℕ)
    → o < k
    → enter o c (compact k last lines) ≡ (c, compact k last lines)
unfolding enter compact
enter_later o c k last [] h = refl
enter_later o c k last (line ∷ lines) h =
    let apart : (k == o) ≡ false = ground arith in
    let ih = enter_later o c (suc k) last lines (omega arith) in ground (arith, ih, apart)

-- At an offset the line of the offset is entered.
enter-compact :
    (k last line : ℕ) (lines : List ℕ)
    → enter k last (compact k last (line ∷ lines)) ≡ (line, compact (suc k) line lines)
unfolding compact enter
enter-compact k last line lines =
    let here : (k == k) ≡ true = ground arith in
    elim (Bool-cases (k == 0 || not (line == last))) [
      | inl fresh ↦
          rw fresh (rw (here, enter) (enter_later k line (suc k) line lines (omega arith)))
      | inr old ↦
          let same : line ≡ last = ground (arith, old) in
          rw (old, same) (enter_later k last (suc k) last lines (omega arith))
    ]

expand-compact :
    (k last : ℕ) (lines : List ℕ) → expand (length lines) k last (compact k last lines) ≡ lines
unfolding expand
expand-compact k last [] = refl
expand-compact k last (line ∷ lines) =
    rw (enter-compact k last line lines) (ap (◌∷◌ line) (expand-compact (suc k) line lines))

-- At the first offset the last line does not matter.
expand-compact_lines : (lines : List ℕ) → expand (length lines) 0 0 (compact_lines lines) ≡ lines
unfolding compact_lines
expand-compact_lines [] = unfold compact in expand-compact 0 0 []
expand-compact_lines (line ∷ lines) = unfold compact in expand-compact 0 0 (line ∷ lines)

-- The entries that 16-bit offsets and lines can hold.
abbrev FitsLine : LineEntry → Type 0
FitsLine e = IsU16 e.offset × IsU16 e.line

compact-FitsLine :
    (k last : ℕ) (lines : List ℕ)
    → k + length lines ≤ 2 ^ 16
    → All IsU16 lines
    → All FitsLine (compact k last lines)
unfolding compact
compact-FitsLine k last [] h hs = tt
compact-FitsLine k last (line ∷ lines) h hs =
    let fresh = k == 0 || not (line == last) in
    let rest = compact-FitsLine (suc k) (if fresh then line else last) lines (omega arith) hs.1 in
    if_case (All FitsLine) fresh (λ _. ((omega arith, hs.0), rest)) (λ _. rest)

length-compact : (k last : ℕ) (lines : List ℕ) → length (compact k last lines) ≤ length lines
unfolding compact
length-compact k last [] = omega arith
length-compact k last (line ∷ lines) =
    let fresh = k == 0 || not (line == last) in
    ground (arith, length-compact (suc k) (if fresh then line else last) lines)

module _ (cp : Pool) where
  line-Codec : (e : LineEntry) → FitsLine e → Codec cp (write_line e) read_line e
  unfolding write_line read_line
  line-Codec e h = Reads-seq (Complete cp) _ (Reads-u2 (Complete cp) e.offset h.0) (
      Reads-last (Complete cp) (λ line. record { offset = e.offset; line = line })
        (Reads-u2 (Complete cp) e.line h.1))

  -- `decodeLineNumberTable` gives every offset the line that it had, if there are fewer than 2^16 offsets
  -- and the lines are below 2^16.
  pub decode_line_number_table-encode_line_number_table :
      (lines : List ℕ)
      → IsU16 (length lines)
      → All IsU16 lines
      → Codec cp (encode_line_number_table lines) (decode_line_number_table (length lines)) lines
  unfolding encode_line_number_table decode_line_number_table
  decode_line_number_table-encode_line_number_table lines h hs =
      let entries = compact_lines lines in
      let few : IsU16 (length entries) =
        unfold compact_lines in omega (arith, length-compact 0 (2 ^ 64 - 1) lines) in
      let fits : All FitsLine entries =
        unfold compact_lines in compact-FitsLine 0 (2 ^ 64 - 1) lines (omega arith) hs in
      let body = rw (expand-compact_lines lines) at (
        Reads-last (Complete cp) (expand (length lines) 0 0) (
          Reads-each (Complete cp) write_line read_line entries
            (All-map line-Codec entries fits))) in
      Reads-seq (Complete cp) _ (Reads-u2 (Complete cp) (length entries) few) body
