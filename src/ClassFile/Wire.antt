-- ===== src/ClassFile/Wire.antt =====
-- internal/classfile/module_codec.go: `writeU1` to `readUTF8`, big-endian, and the lists and maps that the
-- attributes share. Maps are written in the order of their keys.
pub mod Reads
use polyloft_bvm.Prelude.{
  ℕ, ◌+◌, ◌%◌, ◌^◌, List, [], ◌∷◌, Text, TextMap, length, leb, if◌then◌else◌, sort_by_key,
}
use polyloft_bvm.Binary.{
  Bytes, Writer, Reader, ◌>>◌, ◌>>=◌, give, le_bytes, from_le, emit, refuse, too_large, write_byte,
  read_full, read_byte, write_each, read_each,
}
use polyloft_bvm.Bytecode.Serialize.{read_map}
use mathlib.Core.List.{reverse}

unfoldable pub be_bytes : ℕ → ℕ → Bytes
be_bytes width v = reverse (le_bytes width v)

unfoldable pub from_be : Bytes → ℕ
from_be bs = from_le (reverse bs)

module _ {S : Type 0} where
  unfoldable pub write_u1 : ℕ → Writer S
  write_u1 v = write_byte (v % 256)

  -- `writeU2(w, uint16(v))`.
  unfoldable pub write_u2 : ℕ → Writer S
  write_u2 v = emit (be_bytes 2 (v % 2 ^ 16))

  unfoldable pub write_u4 : ℕ → Writer S
  write_u4 v = emit (be_bytes 4 (v % 2 ^ 32))

  -- A 64-bit word.
  unfoldable pub write_u8 : ℕ → Writer S
  write_u8 v = emit (be_bytes 8 (v % 2 ^ 64))

  unfoldable pub read_u1 : Reader S ℕ
  read_u1 = read_byte

  unfoldable pub read_u2 : Reader S ℕ
  read_u2 = do bs ← read_full 2; give (from_be bs)

  unfoldable pub read_u4 : Reader S ℕ
  read_u4 = do bs ← read_full 4; give (from_be bs)

  unfoldable pub read_u8 : Reader S ℕ
  read_u8 = do bs ← read_full 8; give (from_be bs)

  unfoldable pub write_utf8 : Text → Writer S
  write_utf8 s =
      if leb (length s) 65535
      then (write_u2 (length s) >> emit s)
      else refuse (too_large (length s))

  unfoldable pub read_utf8 : Reader S Text
  read_utf8 = do n ← read_u2; read_full n

  unfoldable pub write_string_list : List Text → Writer S
  write_string_list values = do write_u2 (length values); write_each write_utf8 values

  unfoldable pub read_string_list : Reader S (List Text)
  read_string_list = do count ← read_u2; read_each read_utf8 count

  unfoldable pub write_u2_list : List ℕ → Writer S
  write_u2_list values = do write_u2 (length values); write_each write_u2 values

  unfoldable pub read_u2_list : Reader S (List ℕ)
  read_u2_list = do count ← read_u2; read_each read_u2 count

  -- A map with string keys: the count, then each entry in the order of the keys.
  unfoldable pub write_map : {V : Type 0} → (V → Writer S) → TextMap V → Writer S
  write_map write m = do
    write_u2 (length m)
    write_each (λ e. write_utf8 e.0 >> write e.1) (sort_by_key m)

  unfoldable pub read_text_map : {V : Type 0} → Reader S V → Reader S (TextMap V)
  read_text_map read = do
    count ← read_u2
    read_map (read_utf8 >>= λ key. read >>= λ v. give (key, v)) count []

  -- `writeStringMap`, `writeAnnotationMap` and `writeOverloads` with their readers.
  unfoldable pub write_string_map : TextMap Text → Writer S
  write_string_map = write_map write_utf8

  unfoldable pub read_string_map : Reader S (TextMap Text)
  read_string_map = read_text_map read_utf8

  unfoldable pub write_annotation_map : TextMap (List Text) → Writer S
  write_annotation_map = write_map write_string_list

  unfoldable pub read_annotation_map : Reader S (TextMap (List Text))
  read_annotation_map = read_text_map read_string_list

  unfoldable pub write_overloads : TextMap (List ℕ) → Writer S
  write_overloads = write_map write_u2_list

  unfoldable pub read_overloads : Reader S (TextMap (List ℕ))
  read_overloads = read_text_map read_u2_list
