-- ===== src/ClassFile/Classes.antt =====
-- internal/classfile/module_codec.go: the attribute PolyloftClasses. Classes and methods are known by their
-- numbers; a map is its list of entries, written in the order of the keys.
pub mod Parts
pub mod RoundTrip
use polyloft_bvm.Prelude.{
  ℕ, ◌+◌, Bool, true, false, List, Text, TextMap, length, ◌==◌, if◌then◌else◌,
}
use polyloft_bvm.Binary.{◌>>◌, ◌>>=◌, give, write_each, read_each}
use polyloft_bvm.ClassFile.Wire.{
  write_u1, write_u2, read_u1, read_u2, write_utf8, read_utf8, write_string_list, read_string_list,
  write_u2_list, read_u2_list, write_string_map, read_string_map, write_annotation_map,
  read_annotation_map, write_overloads, read_overloads,
}
use polyloft_bvm.ClassFile.Attribute.{Out, In}

pub record EncodedFieldDef : Type 0 where
  pub name : Text
  pub type_name : Text
  pub visibility : Text
  pub mutable : Bool
  pub is_final : Bool

pub record EncodedMethodBinding : Type 0 where
  pub name : Text
  pub method_index : ℕ

pub record EncodedSpecialMethod : Type 0 where
  pub slot : ℕ
  pub method_index : ℕ

pub record EncodedClass : Type 0 where
  pub id : ℕ
  pub name : Text
  pub superclass_id : ℕ
  pub superclass_name : Text
  pub implements : List Text
  pub permits : List Text
  pub flags : ℕ
  pub enum_order : List Text
  pub fields : List EncodedFieldDef
  pub field_order : List Text
  pub field_slots : List EncodedMethodBinding
  pub static_fields : List EncodedFieldDef
  pub method_order : List Text
  pub method_slots : List EncodedMethodBinding
  pub method_overloads : TextMap (List ℕ)
  pub constructor : ℕ
  pub constructor_overloads : List ℕ
  pub static_methods : List EncodedMethodBinding
  pub static_method_overloads : TextMap (List ℕ)
  pub special_methods : List EncodedSpecialMethod
  pub method_visibility : TextMap Text
  pub static_visibility : TextMap Text
  pub method_annotations : TextMap (List Text)
  pub constructor_visibility : Text

-- The flag `isFinal` is not written.
unfoldable pub write_encoded_field_def : EncodedFieldDef → Out
write_encoded_field_def f = do
  write_utf8 f.name
  write_utf8 f.type_name
  write_utf8 f.visibility
  write_u1 (if f.mutable then 1 else 0)

unfoldable pub read_encoded_field_def : In EncodedFieldDef
read_encoded_field_def = do
  name ← read_utf8
  type_name ← read_utf8
  visibility ← read_utf8
  mutable ← read_u1
  give (record {
    name = name;
    type_name = type_name;
    visibility = visibility;
    mutable = mutable == 1;
    is_final = false;
  })

unfoldable pub write_encoded_field_defs : List EncodedFieldDef → Out
write_encoded_field_defs defs = do write_u2 (length defs); write_each write_encoded_field_def defs

unfoldable pub read_encoded_field_defs : In (List EncodedFieldDef)
read_encoded_field_defs = do count ← read_u2; read_each read_encoded_field_def count

unfoldable pub write_method_binding : EncodedMethodBinding → Out
write_method_binding b = do write_utf8 b.name; write_u2 b.method_index

unfoldable pub read_method_binding : In EncodedMethodBinding
read_method_binding = do
  name ← read_utf8
  index ← read_u2
  give (record { name = name; method_index = index })

unfoldable pub write_method_bindings : List EncodedMethodBinding → Out
write_method_bindings bindings = do
  write_u2 (length bindings)
  write_each write_method_binding bindings

unfoldable pub read_method_bindings : In (List EncodedMethodBinding)
read_method_bindings = do count ← read_u2; read_each read_method_binding count

unfoldable pub write_special_method : EncodedSpecialMethod → Out
write_special_method m = do write_u1 m.slot; write_u2 m.method_index

unfoldable pub read_special_method : In EncodedSpecialMethod
read_special_method = do
  slot ← read_u1
  index ← read_u2
  give (record { slot = slot; method_index = index })

unfoldable pub write_special_methods : List EncodedSpecialMethod → Out
write_special_methods methods = do
  write_u2 (length methods)
  write_each write_special_method methods

unfoldable pub read_special_methods : In (List EncodedSpecialMethod)
read_special_methods = do count ← read_u2; read_each read_special_method count

-- One class of `encodeClassesAttribute`.
unfoldable pub encode_class : EncodedClass → Out
encode_class c = do
  write_u2 c.id
  write_utf8 c.name
  write_u2 c.superclass_id
  write_utf8 c.superclass_name
  write_u2 c.flags
  write_string_list c.implements
  write_string_list c.permits
  write_string_list c.enum_order
  write_encoded_field_defs c.fields
  write_string_list c.field_order
  write_method_bindings c.field_slots
  write_encoded_field_defs c.static_fields
  write_string_list c.method_order
  write_method_bindings c.method_slots
  write_overloads c.method_overloads
  write_u2 c.constructor
  write_u2_list c.constructor_overloads
  write_method_bindings c.static_methods
  write_overloads c.static_method_overloads
  write_special_methods c.special_methods
  write_string_map c.method_visibility
  write_string_map c.static_visibility
  write_annotation_map c.method_annotations
  write_utf8 c.constructor_visibility

unfoldable pub decode_class : In EncodedClass
decode_class = do
  id ← read_u2
  name ← read_utf8
  superclass_id ← read_u2
  superclass_name ← read_utf8
  flags ← read_u2
  implements ← read_string_list
  permits ← read_string_list
  enum_order ← read_string_list
  fields ← read_encoded_field_defs
  field_order ← read_string_list
  field_slots ← read_method_bindings
  static_fields ← read_encoded_field_defs
  method_order ← read_string_list
  method_slots ← read_method_bindings
  method_overloads ← read_overloads
  constructor ← read_u2
  constructor_overloads ← read_u2_list
  static_methods ← read_method_bindings
  static_method_overloads ← read_overloads
  special_methods ← read_special_methods
  method_visibility ← read_string_map
  static_visibility ← read_string_map
  method_annotations ← read_annotation_map
  constructor_visibility ← read_utf8
  give (record {
    id = id;
    name = name;
    superclass_id = superclass_id;
    superclass_name = superclass_name;
    implements = implements;
    permits = permits;
    flags = flags;
    enum_order = enum_order;
    fields = fields;
    field_order = field_order;
    field_slots = field_slots;
    static_fields = static_fields;
    method_order = method_order;
    method_slots = method_slots;
    method_overloads = method_overloads;
    constructor = constructor;
    constructor_overloads = constructor_overloads;
    static_methods = static_methods;
    static_method_overloads = static_method_overloads;
    special_methods = special_methods;
    method_visibility = method_visibility;
    static_visibility = static_visibility;
    method_annotations = method_annotations;
    constructor_visibility = constructor_visibility;
  })

unfoldable pub encode_classes_attribute : List EncodedClass → Out
encode_classes_attribute classes = do write_u2 (length classes); write_each encode_class classes

unfoldable pub decode_classes_attribute : In (List EncodedClass)
decode_classes_attribute = do count ← read_u2; read_each decode_class count
