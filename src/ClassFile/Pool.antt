-- ===== src/ClassFile/Pool.antt =====
-- internal/classfile/module_codec.go: the constant pool. `cpBuilder` is Pool, its maps functions, since only
-- lookups matter; `cpReader` is the list of entries. A double is its 64-bit pattern.
pub mod Requests
pub mod Builder
pub mod Answers
pub mod RoundTrip
pub mod Entries
use polyloft_bvm.Prelude.{
  ℕ, zero, suc, ◌+◌, ◌-◌, ◌%◌, ◌^◌, Bool, true, false, List, [], ◌∷◌, ◌++◌, Option, none, some,
  Text, same_text, length, get_elem?, replicate, ◌==◌, if◌then◌else◌,
}
use polyloft_bvm.Binary.{
  Result, ok, err, bad_index, unsupported_tag, Writer, Reader, ◌>>◌, ◌>>=◌, give, emit, le_bytes,
  read_full,
}
use polyloft_bvm.ClassFile.Wire.{
  write_u1, write_u2, write_u4, write_u8, read_u1, read_u2, read_u4, read_u8, write_utf8, read_utf8,
}

-- `cpEntry` by its tag; `reserved` has the tag 0.
pub data Entry : Type 0 where
  utf8 : Text → Entry
  integer float long double class_ref string_ref : ℕ → Entry
  reserved : Entry

-- The entries that take two places.
abbrev pub is_wide : Entry → Bool
is_wide (long v) = true
is_wide (double v) = true
is_wide _ = false

pub record Pool : Type 0 where
  pub entries : List Entry
  pub utf8s : Text → Option ℕ
  pub strings : Text → Option ℕ
  pub classes : Text → Option ℕ
  pub int32s : ℕ → Option ℕ
  pub int64s : ℕ → Option ℕ
  pub float64s : ℕ → Option ℕ
  pub attribute_names : Text → Option ℕ

abbrev pub new_pool : Pool
new_pool = record {
  entries = [];
  utf8s = λ k. none;
  strings = λ k. none;
  classes = λ k. none;
  int32s = λ k. none;
  int64s = λ k. none;
  float64s = λ k. none;
  attribute_names = λ k. none;
}

abbrev pub set_text : Text → ℕ → (Text → Option ℕ) → Text → Option ℕ
set_text k i m j = if same_text k j then some i else m j

abbrev pub set_word : ℕ → ℕ → (ℕ → Option ℕ) → ℕ → Option ℕ
set_word k i m j = if k == j then some i else m j

-- The index that `add` returns, and the new entries.
abbrev pub next_index : List Entry → ℕ
next_index es = (length es + 1) % 2 ^ 16

unfoldable pub added : Entry → List Entry → List Entry
added e es = es ++ e ∷ (if is_wide e then reserved ∷ [] else [])

-- `add`, with the map that the caller updates.
unfoldable pub add : Entry → Pool → ℕ × Pool
add e cp = (next_index cp.entries, record cp { entries = added e cp.entries })

unfoldable pub pool_utf8 : Text → Pool → ℕ × Pool
pool_utf8 v cp = elim (cp.utf8s v) [
  | some i ↦ (i, cp)
  | none ↦ let r = add (utf8 v) cp in (r.0, record r.1 { utf8s = set_text v r.0 r.1.utf8s })
]

unfoldable pub attribute_name : Text → Pool → ℕ × Pool
attribute_name v cp = elim (cp.attribute_names v) [
  | some i ↦ (i, cp)
  | none ↦
      let r = pool_utf8 v cp in
      (r.0, record r.1 { attribute_names = set_text v r.0 r.1.attribute_names })
]

unfoldable pub pool_string : Text → Pool → ℕ × Pool
pool_string v cp = elim (cp.strings v) [
  | some i ↦ (i, cp)
  | none ↦
      let u = pool_utf8 v cp in
      let r = add (string_ref u.0) u.1 in (r.0, record r.1 { strings = set_text v r.0 r.1.strings })
]

unfoldable pub pool_class : Text → Pool → ℕ × Pool
pool_class v cp = elim (cp.classes v) [
  | some i ↦ (i, cp)
  | none ↦
      let u = pool_utf8 v cp in
      let r = add (class_ref u.0) u.1 in (r.0, record r.1 { classes = set_text v r.0 r.1.classes })
]

unfoldable pub pool_int32 : ℕ → Pool → ℕ × Pool
pool_int32 v cp = elim (cp.int32s v) [
  | some i ↦ (i, cp)
  | none ↦ let r = add (integer v) cp in (r.0, record r.1 { int32s = set_word v r.0 r.1.int32s })
]

unfoldable pub pool_int64 : ℕ → Pool → ℕ × Pool
pool_int64 v cp = elim (cp.int64s v) [
  | some i ↦ (i, cp)
  | none ↦ let r = add (long v) cp in (r.0, record r.1 { int64s = set_word v r.0 r.1.int64s })
]

unfoldable pub pool_float64 : ℕ → Pool → ℕ × Pool
pool_float64 v cp = elim (cp.float64s v) [
  | some i ↦ (i, cp)
  | none ↦ let r = add (double v) cp in (r.0, record r.1 { float64s = set_word v r.0 r.1.float64s })
]

-- `cpReader`.
abbrev pub present : ℕ → Option Entry → Result Entry
present i none = err (bad_index i)
present i (some reserved) = err (bad_index i)
present i (some e) = ok e

abbrev pub entry : List Entry → ℕ → Result Entry
entry es zero = err (bad_index 0)
entry es (suc i) = present (suc i) (get_elem? es i)

abbrev pub as_utf8 : ℕ → Result Entry → Result Text
as_utf8 i (ok (utf8 v)) = ok v
as_utf8 i (ok _) = err (bad_index i)
as_utf8 i (err p) = err p

unfoldable pub read_pool_utf8 : List Entry → ℕ → Result Text
read_pool_utf8 es i = as_utf8 i (entry es i)

abbrev pub as_class : List Entry → ℕ → Result Entry → Result Text
as_class es i (ok (class_ref j)) = read_pool_utf8 es j
as_class es i (ok _) = err (bad_index i)
as_class es i (err p) = err p

unfoldable pub read_pool_class : List Entry → ℕ → Result Text
read_pool_class es i = as_class es i (entry es i)

abbrev pub as_string : List Entry → ℕ → Result Entry → Result Text
as_string es i (ok (string_ref j)) = read_pool_utf8 es j
as_string es i (ok _) = err (bad_index i)
as_string es i (err p) = err p

unfoldable pub read_pool_string : List Entry → ℕ → Result Text
read_pool_string es i = as_string es i (entry es i)

abbrev pub as_int32 : ℕ → Result Entry → Result ℕ
as_int32 i (ok (integer v)) = ok v
as_int32 i (ok _) = err (bad_index i)
as_int32 i (err p) = err p

unfoldable pub read_pool_int32 : List Entry → ℕ → Result ℕ
read_pool_int32 es i = as_int32 i (entry es i)

abbrev pub as_int64 : ℕ → Result Entry → Result ℕ
as_int64 i (ok (long v)) = ok v
as_int64 i (ok _) = err (bad_index i)
as_int64 i (err p) = err p

unfoldable pub read_pool_int64 : List Entry → ℕ → Result ℕ
read_pool_int64 es i = as_int64 i (entry es i)

abbrev pub as_float64 : ℕ → Result Entry → Result ℕ
as_float64 i (ok (double v)) = ok v
as_float64 i (ok _) = err (bad_index i)
as_float64 i (err p) = err p

unfoldable pub read_pool_float64 : List Entry → ℕ → Result ℕ
read_pool_float64 es i = as_float64 i (entry es i)

module _ {S : Type 0} where
  -- One entry with its tag, which `writeCP` leaves out for a reserved place.
  unfoldable pub write_entry : Entry → Writer S
  write_entry (utf8 v) = do write_u1 1; write_utf8 v
  write_entry (integer v) = do write_u1 3; write_u4 v
  write_entry (float v) = do write_u1 4; write_u4 v
  write_entry (long v) = do write_u1 5; write_u8 v
  write_entry (double v) = do write_u1 6; write_u8 v
  write_entry (class_ref i) = do write_u1 7; write_u2 i
  write_entry (string_ref i) = do write_u1 8; write_u2 i
  write_entry reserved = emit []

  -- The loop of `writeCP`; a wide entry skips a place.
  unfoldable pub write_entries : List Entry → Writer S
  write_entries [] = emit []
  write_entries (e ∷ []) = write_entry e
  write_entries (e ∷ f ∷ es) = elim (is_wide e) [
    | true ↦ do write_entry e; write_entries es
    | false ↦ do write_entry e; write_entries (f ∷ es)
  ]

  unfoldable pub write_cp : List Entry → Writer S
  write_cp es = do write_u2 (length es + 1); write_entries es

  unfoldable pub unsupported : ℕ → Reader S Entry
  unsupported tag bs s = err (unsupported_tag tag)

  unfoldable pub read_tagged : ℕ → Reader S Entry
  read_tagged tag =
      if tag == 1
      then (read_utf8 >>= λ v. give (utf8 v))
      else if tag == 3
      then (read_u4 >>= λ v. give (integer v))
      else if tag == 4
      then (read_u4 >>= λ v. give (float v))
      else if tag == 5
      then (read_u8 >>= λ v. give (long v))
      else if tag == 6
      then (read_u8 >>= λ v. give (double v))
      else if tag == 7
      then (read_u2 >>= λ v. give (class_ref v))
      else if tag == 8
      then (read_u2 >>= λ v. give (string_ref v))
      else unsupported tag

  unfoldable pub read_entry : Reader S Entry
  read_entry = do tag ← read_u1; read_tagged tag

  -- The loop of `readCP`, with the number of places left; a wide entry takes two if there are two.
  unfoldable pub read_entries : ℕ → Reader S (List Entry)
  read_entries zero = give []
  read_entries (suc zero) = do e ← read_entry; give (e ∷ [])
  read_entries (suc (suc n)) = do
    e ← read_entry
    elim (is_wide e) [
      | true ↦ do es ← read_entries n; give (e ∷ reserved ∷ es)
      | false ↦ do es ← read_entries (suc n); give (e ∷ es)
    ]

  -- `count-1` of a uint16 0 is 65535, places that no loop fills.
  unfoldable pub read_cp : Reader S (List Entry)
  read_cp = do
    count ← read_u2
    if count == 0 then give (replicate 65535 reserved) else read_entries (count - 1)
