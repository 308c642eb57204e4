-- ===== src/ClassFile/Method.antt =====
-- internal/classfile/module_codec.go: the methods of a class file, with the attributes Code and
-- PolyloftMethod. A map is its list of entries, written in the order of the keys.
pub mod Meta
pub mod Code
use polyloft_bvm.Prelude.{
  ℕ, zero, suc, ◌+◌, ◌*◌, List, [], ◌∷◌, Option, none, some, Text, TextMap, same_text, length,
  replicate, ◌==◌, if◌then◌else◌,
}
use polyloft_bvm.Token.{codes}
use polyloft_bvm.Binary.{Bytes, ◌>>◌, ◌>>=◌, give, emit, read_full, write_each, read_each}
use polyloft_bvm.Bytecode.{UpvalueSpec, InterfaceMethodSpec, InterfaceSpec}
use polyloft_bvm.Bytecode.Serialize.{write_upvalue, read_upvalue, read_map}
use polyloft_bvm.ClassFile.Wire.{
  write_u1, write_u2, write_u4, read_u1, read_u2, read_u4, write_utf8, read_utf8, write_string_list,
  read_string_list, write_map, read_text_map,
}
use polyloft_bvm.ClassFile.Pool.{Entry, read_pool_utf8}
use polyloft_bvm.ClassFile.Attribute.{
  Out, In, buffered, named, decoded, lift, write_attribute, read_attribute,
}
use polyloft_bvm.ClassFile.Lines.{encode_line_number_table, decode_line_number_table}

pub record EncodedConstant : Type 0 where
  pub kind : ℕ
  pub cp_index : ℕ
  pub ref_index : ℕ

-- What the attribute PolyloftMethod holds.
pub record MethodMeta : Type 0 where
  pub owner_class_name : Text
  pub return_type : Text
  pub upvalues : List UpvalueSpec
  pub global_slot_count : ℕ
  pub global_slot_names : List Text
  pub interfaces : TextMap InterfaceSpec
  pub constants : List EncodedConstant

pub record EncodedMethod : Type 0 where
  pub name_index : ℕ
  pub descriptor_index : ℕ
  pub access_flags : ℕ
  pub code : Bytes
  pub lines : List ℕ
  pub max_locals : ℕ
  pub meta : MethodMeta

pub record DecodedMethod : Type 0 where
  pub name : Text
  pub descriptor : Text
  pub code : Bytes
  pub lines : List ℕ
  pub max_locals : ℕ
  pub meta : MethodMeta

-- One method of an interface, after its key.
unfoldable pub write_interface_method : InterfaceMethodSpec → Out
write_interface_method m = do
  write_utf8 m.name
  write_string_list m.params
  write_utf8 m.return_type

unfoldable pub read_interface_method : In InterfaceMethodSpec
read_interface_method = do
  name ← read_utf8
  params ← read_string_list
  return_type ← read_utf8
  give (record { name = name; params = params; return_type = return_type })

-- One interface, after its key.
unfoldable pub write_interface_spec : InterfaceSpec → Out
write_interface_spec spec = do
  write_utf8 spec.name
  write_utf8 spec.functional_method
  write_map write_interface_method spec.methods

unfoldable pub read_interface_spec : In InterfaceSpec
read_interface_spec = do
  name ← read_utf8
  functional_method ← read_utf8
  methods ← read_text_map read_interface_method
  give (record { name = name; methods = methods; functional_method = functional_method })

unfoldable pub encode_interfaces : TextMap InterfaceSpec → Out
encode_interfaces interfaces = write_map write_interface_spec interfaces

unfoldable pub decode_interfaces : In (TextMap InterfaceSpec)
decode_interfaces = read_text_map read_interface_spec

unfoldable pub write_constant : EncodedConstant → Out
write_constant c = do write_u1 c.kind; write_u2 c.cp_index; write_u2 c.ref_index

unfoldable pub read_constant : In EncodedConstant
read_constant = do
  kind ← read_u1
  cp_index ← read_u2
  ref_index ← read_u2
  give (record { kind = kind; cp_index = cp_index; ref_index = ref_index })

unfoldable pub encode_method_meta : MethodMeta → Out
encode_method_meta m = do
  write_utf8 m.owner_class_name
  write_utf8 m.return_type
  write_u2 (length m.upvalues)
  write_each write_upvalue m.upvalues
  write_u2 m.global_slot_count
  write_string_list m.global_slot_names
  encode_interfaces m.interfaces
  write_u2 (length m.constants)
  write_each write_constant m.constants

unfoldable pub decode_method_meta : In MethodMeta
decode_method_meta = do
  owner ← read_utf8
  return_type ← read_utf8
  upvalue_count ← read_u2
  upvalues ← read_each read_upvalue upvalue_count
  slot_count ← read_u2
  slot_names ← read_string_list
  interfaces ← decode_interfaces
  constant_count ← read_u2
  constants ← read_each read_constant constant_count
  give (record {
    owner_class_name = owner;
    return_type = return_type;
    upvalues = upvalues;
    global_slot_count = slot_count;
    global_slot_names = slot_names;
    interfaces = interfaces;
    constants = constants;
  })

abbrev pub code_name : Text
code_name = codes "Code"

abbrev pub lines_name : Text
lines_name = codes "LineNumberTable"

abbrev pub method_name : Text
method_name = codes "PolyloftMethod"

unfoldable pub encode_code_attribute : EncodedMethod → Out
encode_code_attribute m = do
  write_u2 0
  write_u2 m.max_locals
  write_u4 (length m.code)
  emit m.code
  write_u2 0
  buffered (encode_line_number_table m.lines)
      λ info. named lines_name λ i. do write_u2 1; write_attribute i info

-- The loop over the attributes of the code: the lines, if there is a table.
unfoldable pub read_code_attributes : List Entry → ℕ → ℕ → Option (List ℕ) → In (Option (List ℕ))
read_code_attributes es code_length zero lines = give lines
read_code_attributes es code_length (suc n) lines = do
  (name, info) ← read_attribute es
  if same_text name lines_name
      then (lift (decoded (decode_line_number_table code_length) info) >>= λ table.
          read_code_attributes es code_length n (some table))
      else read_code_attributes es code_length n lines

abbrev pub or_zeros : ℕ → Option (List ℕ) → List ℕ
or_zeros n none = replicate n 0
or_zeros n (some lines) = lines

-- The code, its lines, and the number of its locals; an exception table is skipped.
unfoldable pub decode_code_attribute : List Entry → In (Bytes × List ℕ × ℕ)
decode_code_attribute es = do
  _ ← read_u2
  max_locals ← read_u2
  code_length ← read_u4
  code ← read_full code_length
  exceptions ← read_u2
  _ ← read_full (exceptions * 8)
  count ← read_u2
  lines ← read_code_attributes es code_length count none
  give (code, or_zeros (length code) lines, max_locals)

-- One method of `writeMethods`, with `buildMethodAttributes`.
unfoldable pub write_method_info : EncodedMethod → Out
write_method_info m = do
  write_u2 m.access_flags
  write_u2 m.name_index
  write_u2 m.descriptor_index
  buffered (encode_code_attribute m) λ code. buffered (encode_method_meta m.meta) λ meta.
      named code_name
        λ i. named method_name λ j. do write_u2 2; write_attribute i code; write_attribute j meta

unfoldable pub write_methods : List EncodedMethod → Out
write_methods methods = do write_u2 (length methods); write_each write_method_info methods

-- The loop over the attributes of a method.
unfoldable pub read_method_attributes : List Entry → ℕ → DecodedMethod → In DecodedMethod
read_method_attributes es zero m = give m
read_method_attributes es (suc n) m = do
  (name, info) ← read_attribute es
  if same_text name code_name
      then (lift (decoded (decode_code_attribute es) info) >>= λ c.
          read_method_attributes es n (record m { code = c.0; lines = c.1; max_locals = c.2 }))
      else if same_text name method_name
      then (lift (decoded decode_method_meta info) >>= λ meta.
          read_method_attributes es n (record m { meta = meta }))
      else read_method_attributes es n m

abbrev pub no_meta : MethodMeta
no_meta = record {
  owner_class_name = [];
  return_type = [];
  upvalues = [];
  global_slot_count = 0;
  global_slot_names = [];
  interfaces = [];
  constants = [];
}

unfoldable pub read_method_info : List Entry → In DecodedMethod
read_method_info es = do
  _ ← read_u2
  name_index ← read_u2
  descriptor_index ← read_u2
  count ← read_u2
  name ← lift (read_pool_utf8 es name_index)
  descriptor ← lift (read_pool_utf8 es descriptor_index)
  read_method_attributes es count (record {
    name = name;
    descriptor = descriptor;
    code = [];
    lines = [];
    max_locals = 0;
    meta = no_meta;
  })
