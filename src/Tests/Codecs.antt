-- ===== src/Tests/Codecs.antt =====
-- The binary codecs on concrete data.
use polyloft_bvm.Prelude.{ℕ, true, false, [], ◌∷◌, none, some, arith}
use polyloft_bvm.Prelude.Word.{IsU32}
use polyloft_bvm.Token.{codes}
use polyloft_bvm.Binary.{write_u32, read_u32, give}
use polyloft_bvm.Binary.Reads.{Outcome, Reads-u32}
use polyloft_bvm.Bytecode.{Function}
use polyloft_bvm.Bytecode.Serialize.{write_function, read_function}
use polyloft_bvm.Bytecode.RoundTrip.{FitsFunction, read_function-write_function}
use polyloft_bvm.Value.Codec.{int64, EncoderState, DecoderState, encode_constant, decode_constant}
use polyloft_bvm.Value.Codec.Scalars.{decoded, decode_constant-encode_constant}
use polyloft_bvm.Value.Class.{Class}
use polyloft_bvm.Value.Class.Layout.{write_class, read_class}
use polyloft_bvm.Value.Class.RoundTrip.{FitsClass, stored, read_class-write_class}

-- A codec without state.
abbrev Stateless : Unit {0} → Unit {0} → Type 0
Stateless s t = Unit {0}

abbrev greet : Function ℕ
greet = record {
  name = codes "greet";
  arity = 1;
  param_types = codes "String" ∷ [];
  owner_class_name = [];
  upvalues = record { index = 2; is_local = true } ∷ [];
  return_type = codes "Int";
  max_locals = 2;
  global_slot_count = 0;
  global_slot_names = [];
  interfaces = [];
  chunk =
      some (record {
        code = 0 ∷ 0 ∷ 1 ∷ 100 ∷ [];
        constants = 5 ∷ 6 ∷ [];
        lines = 3 ∷ 3 ∷ 3 ∷ 4 ∷ [];
      });
}

greet-FitsFunction : FitsFunction greet
greet-FitsFunction = record {
  name = omega arith;
  arity = ground arith;
  param_types = (omega arith, (omega arith, tt));
  owner_class_name = omega arith;
  upvalues = omega arith;
  return_type = omega arith;
  max_locals = ground arith;
  global_slot_count = ground arith;
  global_slot_names = (omega arith, tt);
  interfaces = omega arith;
  each_interface = tt;
  interfaces_map = tt;
  chunk = record {
    code = omega arith;
    lines = omega arith;
    each_line = (ground arith, (ground arith, (ground arith, (ground arith, tt))));
    constants = omega arith;
  };
}

read_function-write_function_example :
    Outcome Stateless (write_function write_u32 greet) (read_function read_u32) greet tt tt
read_function-write_function_example =
    read_function-write_function Stateless write_u32 read_u32 greet tt tt greet-FitsFunction
      (Reads-u32 Stateless 5 (omega arith), (Reads-u32 Stateless 6 (omega arith), tt)) tt

abbrev fresh : EncoderState
fresh = record {
  seen_classes = λ p. none;
  next_class_id = 0;
  seen_functions = λ p. none;
  next_function_id = 0;
}

abbrev empty : DecoderState ℕ
empty = record { class_index = λ p. none; function_index = λ p. none; next_address = 0 }

abbrev Any : EncoderState → DecoderState ℕ → Type 0
Any s t = Unit {0}

decode_constant-encode_constant_example :
    Outcome Any
      (encode_constant write_u32 write_u32 (int64 258))
      (decode_constant read_u32 (λ p. give tt))
      (decoded (int64 258))
      fresh
      empty
decode_constant-encode_constant_example =
    decode_constant-encode_constant Any write_u32 write_u32 read_u32 (λ p. give tt) (int64 258)
      fresh empty (omega arith) tt

-- A class with one field and one method; functions are numbers.
abbrev point : Class ℕ ℕ ℕ
point = record {
  name = codes "Point";
  superclass = some 3;
  implements = [];
  permits = [];
  is_abstract = false;
  is_enum = false;
  is_sealed = true;
  is_record = false;
  enum_order = [];
  fields =
      (
        codes "x",
        record {
          default = 9;
          mutable = true;
          is_final = false;
          type_name = codes "Int";
          visibility = codes "private";
        },
      )
      ∷ [];
  field_order = codes "x" ∷ [];
  field_index = (codes "x", 0) ∷ [];
  static_fields = [];
  method_visibility = [];
  static_visibility = [];
  constructor_visibility = codes "public";
  method_annotations = [];
  fast_constructor = some (record { arity = 1; field_slots = 0 ∷ []; arg_indexes = 0 ∷ [] });
  fast_methods = [];
  fast_static_methods = [];
  method_order = codes "len" ∷ [];
  method_index = (codes "len", 0) ∷ [];
  method_table = some 40 ∷ [];
  methods = (codes "len", some 40) ∷ (codes "gone", none) ∷ [];
  method_overloads = [];
  constructor = some 41;
  constructor_overloads = [];
  static_methods = [];
  static_method_overloads = [];
  static_values = [];
  special_methods = λ slot. none;
  default_fields = [];
}

point-FitsClass : FitsClass IsU32 point
point-FitsClass = record {
  name = omega arith;
  fast_constructor = record {
    arity = ground arith;
    field_slots = omega arith;
    each_slot = (ground arith, tt);
    arg_indexes = omega arith;
    each_index = (ground arith, tt);
  };
  enum_order = (omega arith, tt);
  fields = (
    omega arith,
    (tt, tt),
    (record { key = omega arith; type_name = omega arith; visibility = omega arith }, tt),
  );
  field_order = (omega arith, (omega arith, tt));
  field_index = (omega arith, (tt, tt), ((omega arith, ground arith), tt));
  method_order = (omega arith, (omega arith, tt));
  method_index = (omega arith, (tt, tt), ((omega arith, ground arith), tt));
  method_table = (omega arith, (omega arith, tt));
  methods = (omega arith, (tt, tt), ((omega arith, omega arith), ((omega arith, tt), tt)));
  constructor = omega arith;
  constructor_visibility = omega arith;
  static_fields = (omega arith, tt, tt);
  static_methods = (omega arith, tt, tt);
  method_visibility = (omega arith, tt, tt);
  static_visibility = (omega arith, tt, tt);
  special_methods = (tt, (tt, (tt, (tt, (tt, (tt, (tt, (tt, (tt, (tt, tt))))))))));
}

read_class-write_class_example :
    Outcome Stateless (write_class write_u32 point) (read_class 0 read_u32) (stored 0 point) tt tt
read_class-write_class_example =
    read_class-write_class Stateless 0 write_u32 read_u32 IsU32 (Reads-u32 Stateless) point tt tt
      point-FitsClass tt
