-- ===== src/Tests/ClassFiles.antt =====
-- A class file of a module with one method.
use polyloft_bvm.ClassFile.Attribute.{buffered, named, write_attribute}
use polyloft_bvm.ClassFile.Wire.{
  be_bytes, write_map, write_string_list, write_u2, write_u4, write_utf8,
}
use polyloft_bvm.Prelude.{
  ◌+◌, ◌<◌, ◌^◌, ◌≡◌, refl, List, [], ◌∷◌, ◌++◌, length, same_text, sort_by_key, All, arith,
}
use polyloft_bvm.Binary.Reads.{Outcome}
use polyloft_bvm.ClassFile.Lines.RoundTrip.{decode_line_number_table-encode_line_number_table}
use polyloft_bvm.Token.{codes}
use polyloft_bvm.Binary.{ok, Bytes, emit, le_bytes, write_each, ◌>>◌}
use polyloft_bvm.ClassFile.Pool.{
  Pool, new_pool, pool_utf8, attribute_name, pool_string, pool_class, write_cp, read_cp, pool_int64,
  add, added, read_pool_utf8,
}
use polyloft_bvm.ClassFile.Pool.Requests.{Request, text, name, string, class, int64, FitsRequest}
use polyloft_bvm.ClassFile.Pool.RoundTrip.{requests, AllResolve, requests-IsPool, read_cp-requests}
use polyloft_bvm.ClassFile.Attribute.Reads.{Complete, size_of, size_of-Sized}
use polyloft_bvm.ClassFile.Lines.{
  decode_line_number_table, encode_line_number_table, compact_lines, write_line, compact,
}
use polyloft_bvm.ClassFile.Method.{
  EncodedMethod, no_meta, encode_code_attribute, encode_method_meta, encode_interfaces,
}
use polyloft_bvm.ClassFile.Method.Meta.{FitsMeta}
use polyloft_bvm.ClassFile.Classes.{encode_classes_attribute}
use polyloft_bvm.ClassFile.Module.{ModuleState, write_module, read_module}
use polyloft_bvm.ClassFile.Module.RoundTrip.{
  FitsNamed, FitsModule, read_of, read_module-write_module,
}

abbrev asked : List Request
asked =
    name (codes "Code")
    ∷ name (codes "LineNumberTable")
    ∷ name (codes "PolyloftMethod")
    ∷ name (codes "PolyloftModule")
    ∷ name (codes "PolyloftClasses")
    ∷ name (codes "PolyloftMetadata")
    ∷ text (codes "main")
    ∷ text (codes "()V")
    ∷ int64 7
    ∷ string (codes "main")
    ∷ class (codes "M")
    ∷ []

abbrev pool : Pool
pool = (requests asked new_pool).1

abbrev main : EncodedMethod
main = record {
  name_index = 7;
  descriptor_index = 8;
  access_flags = 9;
  code = 1 ∷ 2 ∷ 3 ∷ [];
  lines = 4 ∷ 4 ∷ 5 ∷ [];
  max_locals = 2;
  meta = no_meta;
}

abbrev module_state : ModuleState
module_state = record {
  class_name = codes "M";
  fields = record { access_flags = 9; name_index = 7; descriptor_index = 8 } ∷ [];
  methods = main ∷ [];
  classes = [];
  entry_method = 1;
  metadata = 6 ∷ [];
}

places : length pool.entries ≡ 13
unfolding pool_utf8 attribute_name pool_string pool_class pool_int64 add added same_text
places = refl

known_class : pool_class (codes "M") pool ≡ (13, pool)
unfolding pool_utf8 attribute_name pool_string pool_class pool_int64 add added same_text
known_class = refl

table_size : size_of (encode_line_number_table main.lines pool) ≡ 10
unfolding encode_line_number_table ◌>>◌ write_u2 emit write_each compact_lines compact write_line
    be_bytes le_bytes
table_size = refl

code_size : size_of (encode_code_attribute main pool) ≡ 31
unfolding encode_code_attribute ◌>>◌ write_u2 emit write_u4 buffered encode_line_number_table
    write_each compact_lines compact write_line named write_attribute be_bytes le_bytes
code_size = refl

meta_size : size_of (encode_method_meta no_meta pool) ≡ 14
unfolding encode_method_meta ◌>>◌ write_utf8 write_u2 emit write_each write_string_list
    encode_interfaces write_map sort_by_key be_bytes le_bytes
meta_size = refl

classes_size : size_of (encode_classes_attribute [] pool) ≡ 2
unfolding encode_classes_attribute ◌>>◌ write_u2 emit write_each be_bytes le_bytes
classes_size = refl

no_meta-Fits : FitsMeta no_meta
unfolding sort_by_key
no_meta-Fits = record {
  owner_class_name = omega arith;
  return_type = omega arith;
  upvalues = omega arith;
  global_slot_count = omega arith;
  global_slot_names = (omega arith, tt);
  interfaces = record { few = omega arith; listed = (tt, refl); entries = tt };
  constants = omega arith;
  each_constant = tt;
}

main-Fits : FitsNamed pool main
unfolding pool_utf8 attribute_name pool_string pool_class pool_int64 add added same_text
    read_pool_utf8
main-Fits = record {
  fits = record {
    access_flags = omega arith;
    name_index = omega arith;
    descriptor_index = omega arith;
    max_locals = omega arith;
    code = omega arith;
    each_line = refl;
    lines = omega arith;
    meta = no_meta-Fits;
    table_size =
        size_of-Sized pool (encode_line_number_table main.lines) 10 table_size (omega arith);
    code_size = size_of-Sized pool (encode_code_attribute main) 31 code_size (omega arith);
    meta_size = size_of-Sized pool (encode_method_meta no_meta) 14 meta_size (omega arith);
  };
  name = refl;
  descriptor = refl;
}

asked-Fits : All FitsRequest asked
asked-Fits = omega arith

module_state-Fits : FitsModule pool module_state
unfolding pool_utf8 attribute_name pool_string pool_class pool_int64 add added same_text
    read_pool_utf8
module_state-Fits = record {
  pool = requests-IsPool asked asked-Fits (omega (arith, places));
  places = omega (arith, places);
  fields = omega arith;
  methods = (omega arith, (main-Fits, tt));
  attributes = record {
    entry_method = omega arith;
    classes = (omega arith, tt);
    classes_size = size_of-Sized pool (encode_classes_attribute []) 2 classes_size (omega arith);
    metadata = omega arith;
  };
  entry = omega arith;
  code_registered = (1, refl);
  lines_registered = (2, refl);
  method_registered = (3, refl);
  module_registered = (4, refl);
  classes_registered = (5, refl);
  metadata_registered = (6, refl);
}

known-Fits : FitsModule (pool_class module_state.class_name pool).1 module_state
known-Fits = rw known_class module_state-Fits

read_module-write_module_example :
    (bytes : Bytes) × (write_module module_state pool
      ≡ ok (bytes, (pool_class module_state.class_name pool).1))
    × ((rest : Bytes)
        → read_module (bytes ++ rest) tt
          ≡ ok (read_of (pool_class module_state.class_name pool).1 module_state, rest, tt))
read_module-write_module_example =
    read_module-write_module module_state pool (rw known_class (omega arith)) known-Fits

-- The states of a codec without state.
abbrev Stateless : Unit {0} → Unit {0} → Type 0
Stateless s t = Unit {0}

few_places : length (requests asked new_pool).1.entries + 1 < 2 ^ 16
few_places = omega (arith, places)

read_cp-requests_example :
    Outcome Stateless
      (write_cp (requests asked new_pool).1.entries)
      read_cp
      (requests asked new_pool).1.entries
      tt
      tt
    × AllResolve (requests asked new_pool).1.entries asked (requests asked new_pool).0
read_cp-requests_example = read_cp-requests Stateless asked tt tt asked-Fits few_places tt

decode_line_number_table-encode_line_number_table_example :
    Outcome
      (Complete new_pool)
      (encode_line_number_table (4 ∷ 4 ∷ 5 ∷ []))
      (decode_line_number_table 3)
      (4 ∷ 4 ∷ 5 ∷ [])
      new_pool
      tt
decode_line_number_table-encode_line_number_table_example =
    decode_line_number_table-encode_line_number_table new_pool (4 ∷ 4 ∷ 5 ∷ []) (omega arith)
      (omega arith) new_pool tt refl
