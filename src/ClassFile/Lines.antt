-- ===== src/ClassFile/Lines.antt =====
-- internal/classfile/module_codec.go: the line table of a method, `compactLines` and its encoding.
pub mod RoundTrip
use polyloft_bvm.Prelude.{
  ℕ, zero, suc, ◌+◌, ◌-◌, ◌^◌, Bool, true, false, not, ◌||◌, List, [], ◌∷◌, length, ◌==◌,
  if◌then◌else◌,
}
use polyloft_bvm.Binary.{◌>>◌, ◌>>=◌, give, write_each, read_each}
use polyloft_bvm.ClassFile.Wire.{write_u2, read_u2}
use polyloft_bvm.ClassFile.Attribute.{Out, In}

pub record LineEntry : Type 0 where
  pub offset : ℕ
  pub line : ℕ

-- The loop of `compactLines`, from an offset, with `lastLine`.
unfoldable pub compact : ℕ → ℕ → List ℕ → List LineEntry
compact offset last [] = []
compact offset last (line ∷ lines) =
    let fresh = offset == 0 || not (line == last) in
    let rest = compact (suc offset) (if fresh then line else last) lines in
    if fresh then record { offset = offset; line = line } ∷ rest else rest

-- `lastLine` is -1 at first.
unfoldable pub compact_lines : List ℕ → List LineEntry
compact_lines lines = compact 0 (2 ^ 64 - 1) lines

unfoldable pub write_line : LineEntry → Out
write_line e = do write_u2 e.offset; write_u2 e.line

unfoldable pub encode_line_number_table : List ℕ → Out
encode_line_number_table lines = do
  write_u2 (length (compact_lines lines))
  write_each write_line (compact_lines lines)

-- The inner loop of `decodeLineNumberTable`: the current line, and the entries that are left.
unfoldable pub enter : ℕ → ℕ → List LineEntry → ℕ × List LineEntry
enter offset current [] = (current, [])
enter offset current (e ∷ es) = elim (e.offset == offset) [
  | true ↦ enter offset e.line es
  | false ↦ (current, e ∷ es)
]

-- The outer loop, with the number of offsets left.
unfoldable pub expand : ℕ → ℕ → ℕ → List LineEntry → List ℕ
expand zero offset current es = []
expand (suc n) offset current es =
    (enter offset current es).0
    ∷ expand n (suc offset) (enter offset current es).0 (enter offset current es).1

unfoldable pub read_line : In LineEntry
read_line = do offset ← read_u2; line ← read_u2; give (record { offset = offset; line = line })

unfoldable pub decode_line_number_table : ℕ → In (List ℕ)
decode_line_number_table code_length = do
  count ← read_u2
  entries ← read_each read_line count
  give (expand code_length 0 0 entries)
