-- ===== src/Value/Codec.antt =====
-- internal/value/serialize.go: `BinaryCodec`, `EncodeConstant` and `DecodeConstant`. A pointer to a
-- function or a class is a number to the encoder, which knows it by its identity alone; `write_fn` and
-- `write_class` stand for `WriteBinary` and `writeClass` at what it points to. To the decoder it is
-- what `read_fn` returns, or an address that `read_class` fills.
pub mod Scalars
use polyloft_bvm.Prelude.{ℕ, ◌+◌, ◌%◌, ◌^◌, Bool, [], Option, none, some, Text, ◌==◌, if◌then◌else◌}
use polyloft_bvm.Binary.{
  Problem, Result, ok, err, Bytes, Writer, Reader, ◌>>◌, ◌>>=◌, give, write_byte, write_word,
  write_u32, write_bool, read_byte, read_word, read_u32, read_i32,
}
use polyloft_bvm.Bytecode.Serialize.{write_string, read_string}

-- The dynamic types of the switch of `EncodeConstant`; `other` is any further type. Words are bit
-- patterns: 64 bits of an int64 and a float64, 32 of a rune.
pub data Constant (F K : Type 0) : Type 0 where
  nil : Constant F K
  int64 : ℕ → Constant F K
  float64 : ℕ → Constant F K
  text : Text → Constant F K
  rune : ℕ → Constant F K
  boolean : Bool → Constant F K
  function : F → Constant F K
  class : K → Constant F K
  other : Constant F K

-- The fields of `BinaryCodec` that encoding uses.
pub record EncoderState : Type 0 where
  pub seen_classes : ℕ → Option ℕ
  pub next_class_id : ℕ
  pub seen_functions : ℕ → Option ℕ
  pub next_function_id : ℕ

-- The fields that decoding uses, and the address of the next class that it allocates.
pub record DecoderState (F : Type 0) : Type 0 where
  pub class_index : ℕ → Option ℕ
  pub function_index : ℕ → Option F
  pub next_address : ℕ

abbrev pub tag_nil : ℕ
tag_nil = 0

abbrev pub tag_int64 : ℕ
tag_int64 = 1

abbrev pub tag_float64 : ℕ
tag_float64 = 2

abbrev pub tag_string : ℕ
tag_string = 3

abbrev pub tag_rune : ℕ
tag_rune = 4

abbrev pub tag_bool : ℕ
tag_bool = 5

abbrev pub tag_function_def : ℕ
tag_function_def = 6

abbrev pub tag_function_ref : ℕ
tag_function_ref = 7

abbrev pub tag_class_def : ℕ
tag_class_def = 8

abbrev pub tag_class_ref : ℕ
tag_class_ref = 9

-- `m[k] = v` on a map whose keys are numbers.
abbrev pub update {ℓ} : {V : Type ℓ} → (ℕ → Option V) → ℕ → V → ℕ → Option V
update m k v j = if k == j then some v else m j

-- An int32 counter.
abbrev pub next_id : ℕ → ℕ
next_id id = (id + 1) % 2 ^ 32

unfoldable pub see_function : ℕ → Writer EncoderState
see_function p s = ok (
  [],
  record s {
    seen_functions = update s.seen_functions p s.next_function_id;
    next_function_id = next_id s.next_function_id;
  },
)

unfoldable pub see_class : ℕ → Writer EncoderState
see_class p s = ok (
  [],
  record s {
    seen_classes = update s.seen_classes p s.next_class_id;
    next_class_id = next_id s.next_class_id;
  },
)

module _ (write_fn write_class : ℕ → Writer EncoderState) where
  -- A function that was seen is a reference to its number; any other is numbered and written.
  unfoldable pub encode_function : ℕ → Writer EncoderState
  encode_function p s = elim (s.seen_functions p) [
    | some id ↦ (do write_byte tag_function_ref; write_u32 id) s
    | none ↦
        (do write_byte tag_function_def; write_u32 s.next_function_id; see_function p; write_fn p) s
  ]

  unfoldable pub encode_class : ℕ → Writer EncoderState
  encode_class p s = elim (s.seen_classes p) [
    | some id ↦ (do write_byte tag_class_ref; write_u32 id) s
    | none ↦ (do write_byte tag_class_def; write_u32 s.next_class_id; see_class p; write_class p) s
  ]

  -- `EncodeConstant`.
  unfoldable pub encode_constant : Constant ℕ ℕ → Writer EncoderState
  encode_constant nil = write_byte tag_nil
  encode_constant (int64 v) = do write_byte tag_int64; write_word 8 v
  encode_constant (float64 v) = do write_byte tag_float64; write_word 8 v
  encode_constant (text v) = do write_byte tag_string; write_string v
  encode_constant (rune v) = do write_byte tag_rune; write_u32 v
  encode_constant (boolean v) = do write_byte tag_bool; write_byte (if v then 1 else 0)
  encode_constant (function p) = encode_function p
  encode_constant (class p) = encode_class p
  encode_constant other = λ s. err Problem.unsupported_constant

-- A pointer that is missing in an index is Go's nil.
abbrev pub Decoded : Type 0 → Type 0
Decoded F = Constant (Option F) (Option ℕ)

module _ {F : Type 0} where
  unfoldable pub lookup_function : ℕ → Reader (DecoderState F) (Option F)
  lookup_function id bs s = ok (s.function_index id, bs, s)

  unfoldable pub lookup_class : ℕ → Reader (DecoderState F) (Option ℕ)
  lookup_class id bs s = ok (s.class_index id, bs, s)

  unfoldable pub index_function : ℕ → F → Reader (DecoderState F) (Unit {0})
  index_function id f bs s = ok (tt, bs, record s { function_index = update s.function_index id f })

  -- `c := &Class{}; bc.classIndex[id] = c`.
  unfoldable pub allocate_class : ℕ → Reader (DecoderState F) ℕ
  allocate_class id bs s = ok (
    s.next_address,
    bs,
    record s {
      class_index = update s.class_index id s.next_address;
      next_address = s.next_address + 1;
    },
  )

  module _ (read_fn : Reader (DecoderState F) F)
      (read_class : ℕ → Reader (DecoderState F) (Unit {0})) where
    unfoldable pub decode_function_def : Reader (DecoderState F) (Decoded F)
    decode_function_def = do
      id ← read_i32
      fn ← read_fn
      index_function id fn >>= λ _. give (function (some fn))

    unfoldable pub decode_class_def : Reader (DecoderState F) (Decoded F)
    decode_class_def = do
      id ← read_i32
      c ← allocate_class id
      read_class c >>= λ _. give (class (some c))

    -- The switch on the tag.
    unfoldable pub decode_tagged : ℕ → Reader (DecoderState F) (Decoded F)
    decode_tagged tag =
        if tag == tag_nil
        then give nil
        else if tag == tag_int64
        then (read_word 8 >>= λ v. give (int64 v))
        else if tag == tag_float64
        then (read_word 8 >>= λ v. give (float64 v))
        else if tag == tag_string
        then (read_string >>= λ v. give (text v))
        else if tag == tag_rune
        then (read_u32 >>= λ v. give (rune v))
        else if tag == tag_bool
        then (read_byte >>= λ v. give (boolean (v == 1)))
        else if tag == tag_function_ref
        then (read_i32 >>= λ id. lookup_function id >>= λ f. give (function f))
        else if tag == tag_function_def
        then decode_function_def
        else if tag == tag_class_ref
        then (read_i32 >>= λ id. lookup_class id >>= λ c. give (class c))
        else if tag == tag_class_def
        then decode_class_def
        else (λ bs s. err (Problem.unsupported_tag tag))

    -- `DecodeConstant`.
    unfoldable pub decode_constant : Reader (DecoderState F) (Decoded F)
    decode_constant = do tag ← read_byte; decode_tagged tag
