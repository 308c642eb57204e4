-- ===== src/ClassFile/Module.antt =====
-- internal/classfile/module_codec.go: `writeModuleClassFile` on a module state that is built, and
-- `readModuleClassFile` up to the tables of functions and classes that it fills.
pub mod Attributes
pub mod RoundTrip
use polyloft_bvm.Prelude.{
  ℕ, zero, suc, ◌+◌, Bool, true, false, ◌&&◌, ◌||◌, not, List, [], ◌∷◌, Option, none, some, Text,
  same_text, length, leb, ◌==◌, if◌then◌else◌,
}
use polyloft_bvm.Token.{codes}
use polyloft_bvm.Binary.{
  Problem, bad_header, bad_index, Bytes, err, ◌>>◌, ◌>>=◌, give, read_full, write_each, read_each,
}
use polyloft_bvm.ClassFile.Wire.{write_u2, write_u4, read_u2, read_u4}
use polyloft_bvm.ClassFile.Pool.{Entry, Pool, pool_class, write_cp, read_cp}
use polyloft_bvm.ClassFile.Attribute.{
  Out, In, buffered, named, decoded, lift, write_attribute, read_attribute,
}
use polyloft_bvm.ClassFile.Method.{EncodedMethod, DecodedMethod, write_methods, read_method_info}
use polyloft_bvm.ClassFile.Classes.{
  EncodedClass, encode_classes_attribute, decode_classes_attribute,
}

pub record FieldInfo : Type 0 where
  pub access_flags : ℕ
  pub name_index : ℕ
  pub descriptor_index : ℕ

-- `moduleState`, without its pool, which is the state of the writers; `class_name` is the internal name.
pub record ModuleState : Type 0 where
  pub class_name : Text
  pub fields : List FieldInfo
  pub methods : List EncodedMethod
  pub classes : List EncodedClass
  pub entry_method : ℕ
  pub metadata : Bytes

-- What is read of a module.
pub record Parsed : Type 0 where
  pub methods : List DecodedMethod
  pub entry_method : ℕ
  pub classes : List EncodedClass
  pub metadata : Bytes

abbrev pub magic_number : ℕ
magic_number = 0x50464243

abbrev pub module_name : Text
module_name = codes "PolyloftModule"

abbrev pub classes_name : Text
classes_name = codes "PolyloftClasses"

abbrev pub metadata_name : Text
metadata_name = codes "PolyloftMetadata"

abbrev pub major_version : ℕ
major_version = 1

abbrev pub minor_version : ℕ
minor_version = 0

-- The pool as it is when the loop comes to it.
unfoldable pub write_pool : Out
write_pool cp = write_cp cp.entries cp

unfoldable pub write_field : FieldInfo → Out
write_field f = do
  write_u2 f.access_flags
  write_u2 f.name_index
  write_u2 f.descriptor_index
  write_u2 0

unfoldable pub write_fields : List FieldInfo → Out
write_fields fields = do write_u2 (length fields); write_each write_field fields

-- `buildClassAttributes`, and the writing of its three attributes.
unfoldable pub write_class_attributes : ModuleState → Out
write_class_attributes st = buffered (write_u2 st.entry_method) λ entry. named module_name λ i.
    buffered (encode_classes_attribute st.classes) λ classes. named classes_name λ j.
      named metadata_name λ k. do
        write_u2 3
        write_attribute i entry
        write_attribute j classes
        write_attribute k st.metadata

-- After the request for the class of the module.
unfoldable pub write_content : ModuleState → ℕ → Out
write_content st this_class = do
  write_u4 magic_number
  write_u2 minor_version
  write_u2 major_version
  write_pool
  write_u2 0x11
  write_u2 this_class
  write_u2 0
  write_u2 0
  write_fields st.fields
  write_methods st.methods
  write_class_attributes st

unfoldable pub write_module : ModuleState → Out
write_module st cp =
    write_content st (pool_class st.class_name cp).0 (pool_class st.class_name cp).1

unfoldable pub fail {ℓ} : {A : Type ℓ} → Problem → In A
fail p bs t = err p

unfoldable pub skip_attribute : In Bytes
skip_attribute = do _ ← read_u2; n ← read_u4; read_full n

-- `skipMember`.
unfoldable pub skip_member : In (List Bytes)
skip_member = do
  _ ← read_u2
  _ ← read_u2
  _ ← read_u2
  count ← read_u2
  read_each skip_attribute count

-- The loop over the attributes of the module.
unfoldable pub read_class_attributes : List Entry → ℕ → Parsed → In Parsed
read_class_attributes es zero p = give p
read_class_attributes es (suc n) p = do
  (name, info) ← read_attribute es
  if same_text name module_name
      then (lift (decoded read_u2 info) >>= λ entry.
          read_class_attributes es n (record p { entry_method = entry }))
      else if same_text name classes_name
      then (lift (decoded decode_classes_attribute info) >>= λ classes.
          read_class_attributes es n (record p { classes = classes }))
      else if same_text name metadata_name
      then read_class_attributes es n (record p { metadata = info })
      else read_class_attributes es n p

-- The entry method is one of the methods, which are numbered from 1.
abbrev pub has_entry : Parsed → Bool
has_entry p = leb 1 p.entry_method && leb p.entry_method (length p.methods)

unfoldable pub skip_fields : In (List (List Bytes))
skip_fields = do count ← read_u2; read_each skip_member count

unfoldable pub read_methods : List Entry → In (List DecodedMethod)
read_methods es = do count ← read_u2; read_each (read_method_info es) count

unfoldable pub read_class_info : List Entry → List DecodedMethod → In Parsed
read_class_info es methods = do
  count ← read_u2
  read_class_attributes es count
      (record { methods = methods; entry_method = 0; classes = []; metadata = [] })

unfoldable pub read_members : List Entry → In Parsed
read_members es = do
  _ ← read_u2
  _ ← read_u2
  _ ← read_u2
  interface_count ← read_u2
  _ ← read_each read_u2 interface_count
  _ ← skip_fields
  methods ← read_methods es
  p ← read_class_info es methods
  if has_entry p then give p else fail (bad_index p.entry_method)

unfoldable pub read_module : In Parsed
read_module = do
  magic ← read_u4
  if magic == magic_number
      then (read_u2 >>= λ minor. read_u2 >>= λ major.
          if major == major_version && minor == minor_version
          then (read_cp >>= λ es. read_members es)
          else fail bad_header)
      else fail bad_header
