-- ===== src/ClassFile/Method/Meta.antt =====
-- The attribute PolyloftMethod is read back.
use polyloft_bvm.Prelude.{length, All, All-map, All-every}
use polyloft_bvm.Prelude.Word.{IsByte, IsU16}
use polyloft_bvm.Binary.Reads.{Reads-seq, Reads-last, Reads-each}
use polyloft_bvm.Bytecode.{InterfaceMethodSpec, InterfaceSpec}
use polyloft_bvm.Bytecode.Serialize.{write_upvalue, read_upvalue}
use polyloft_bvm.Bytecode.RoundTrip.{Reads-upvalue}
use polyloft_bvm.ClassFile.Wire.Reads.{
  Short16, ShortTexts16, FitsMap, Reads-u1, Reads-u2, Reads-utf8, Reads-string_list, Reads-listed,
}
use polyloft_bvm.ClassFile.Pool.{Pool}
use polyloft_bvm.ClassFile.Attribute.Reads.{Complete, Codec}
use polyloft_bvm.ClassFile.Method.{
  EncodedConstant, MethodMeta, write_interface_method, read_interface_method, write_interface_spec,
  read_interface_spec, encode_interfaces, decode_interfaces, write_constant, read_constant,
  encode_method_meta, decode_method_meta,
}

pub record FitsInterfaceMethod (m : InterfaceMethodSpec) : Type 0 where
  pub name : Short16 m.name
  pub params : ShortTexts16 m.params
  pub return_type : Short16 m.return_type

pub record FitsInterfaceSpec (spec : InterfaceSpec) : Type 0 where
  pub name : Short16 spec.name
  pub functional_method : Short16 spec.functional_method
  pub methods : FitsMap FitsInterfaceMethod spec.methods

abbrev pub FitsConstant : EncodedConstant → Type 0
FitsConstant c = IsByte c.kind × IsU16 c.cp_index × IsU16 c.ref_index

-- What the attribute can hold: 16-bit counts and lengths.
pub record FitsMeta (m : MethodMeta) : Type 0 where
  pub owner_class_name : Short16 m.owner_class_name
  pub return_type : Short16 m.return_type
  pub upvalues : Short16 m.upvalues
  pub global_slot_count : IsU16 m.global_slot_count
  pub global_slot_names : ShortTexts16 m.global_slot_names
  pub interfaces : FitsMap FitsInterfaceSpec m.interfaces
  pub constants : Short16 m.constants
  pub each_constant : All FitsConstant m.constants

module _ (cp : Pool) where
  abbrev R : Pool → Unit {0} → Type 0
  R = Complete cp

  interface_method-Codec :
      (m : InterfaceMethodSpec)
      → FitsInterfaceMethod m
      → Codec cp (write_interface_method m) read_interface_method m
  unfolding write_interface_method read_interface_method
  interface_method-Codec m h = Reads-seq R _ (Reads-utf8 R m.name h.name) (
      Reads-seq R _ (Reads-string_list R m.params h.params) (
        Reads-last R
          (λ return_type. record { name = m.name; params = m.params; return_type = return_type })
          (Reads-utf8 R m.return_type h.return_type)))

  interface_spec-Codec :
      (spec : InterfaceSpec)
      → FitsInterfaceSpec spec
      → Codec cp (write_interface_spec spec) read_interface_spec spec
  unfolding write_interface_spec read_interface_spec
  interface_spec-Codec spec h = Reads-seq R _ (Reads-utf8 R spec.name h.name) (
      Reads-seq R _ (Reads-utf8 R spec.functional_method h.functional_method) (
        Reads-last R (λ methods. record spec { methods = methods })
          (Reads-listed R write_interface_method read_interface_method FitsInterfaceMethod
            interface_method-Codec spec.methods h.methods)))

  constant-Codec :
      (c : EncodedConstant) → FitsConstant c → Codec cp (write_constant c) read_constant c
  unfolding write_constant read_constant
  constant-Codec c h = Reads-seq R _ (Reads-u1 R c.kind h.0) (
      Reads-seq R _ (Reads-u2 R c.cp_index h.1) (
        Reads-last R (λ ref. record { kind = c.kind; cp_index = c.cp_index; ref_index = ref })
          (Reads-u2 R c.ref_index h.2)))

  pub Codec-method_meta :
      (m : MethodMeta) → FitsMeta m → Codec cp (encode_method_meta m) decode_method_meta m
  unfolding encode_method_meta decode_method_meta encode_interfaces decode_interfaces
  Codec-method_meta m h = Reads-seq R _ (Reads-utf8 R m.owner_class_name h.owner_class_name) (
      Reads-seq R _ (Reads-utf8 R m.return_type h.return_type) (
        Reads-seq R _ (Reads-u2 R (length m.upvalues) h.upvalues) (
          Reads-seq R _
            (Reads-each R write_upvalue read_upvalue m.upvalues
              (All-every (Reads-upvalue R) m.upvalues))
            (Reads-seq R _ (Reads-u2 R m.global_slot_count h.global_slot_count) (
              Reads-seq R _ (Reads-string_list R m.global_slot_names h.global_slot_names) (
                Reads-seq R _
                  (Reads-listed R write_interface_spec read_interface_spec FitsInterfaceSpec
                    interface_spec-Codec m.interfaces h.interfaces)
                  (Reads-seq R _ (Reads-u2 R (length m.constants) h.constants) (
                    Reads-last R (λ constants. record m { constants = constants })
                      (Reads-each R write_constant read_constant m.constants
                        (All-map constant-Codec m.constants h.each_constant))))))))))
