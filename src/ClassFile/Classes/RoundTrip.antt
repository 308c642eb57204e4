-- ===== src/ClassFile/Classes/RoundTrip.antt =====
-- The attribute PolyloftClasses is read back.
use polyloft_bvm.Prelude.{List, length, map}
use polyloft_bvm.Prelude.Word.{IsU16}
use polyloft_bvm.Binary.Reads.{Reads-seq, Reads-last}
use polyloft_bvm.ClassFile.Wire.Reads.{
  Short16, ShortTexts16, FitsMap, Reads-u2, Reads-utf8, Reads-string_list, Reads-u2_list,
}
use polyloft_bvm.ClassFile.Pool.{Pool}
use polyloft_bvm.ClassFile.Attribute.Reads.{Complete, Codec}
use polyloft_bvm.ClassFile.Classes.{
  EncodedClass, encode_class, decode_class, encode_classes_attribute, decode_classes_attribute,
}
use polyloft_bvm.ClassFile.Classes.Parts.{
  FitsFieldDef, FitsBinding, FitsSpecial, FitsList, unmarked, each-Codec, fields-Codec,
  bindings-Codec, specials-Codec, string_map-Codec, annotation_map-Codec, overloads-Codec,
}

-- What the attribute can hold of a class: 16-bit counts, lengths and numbers.
pub record FitsClass (c : EncodedClass) : Type 0 where
  pub id : IsU16 c.id
  pub name : Short16 c.name
  pub superclass_id : IsU16 c.superclass_id
  pub superclass_name : Short16 c.superclass_name
  pub flags : IsU16 c.flags
  pub implements : ShortTexts16 c.implements
  pub permits : ShortTexts16 c.permits
  pub enum_order : ShortTexts16 c.enum_order
  pub fields : FitsList FitsFieldDef c.fields
  pub field_order : ShortTexts16 c.field_order
  pub field_slots : FitsList FitsBinding c.field_slots
  pub static_fields : FitsList FitsFieldDef c.static_fields
  pub method_order : ShortTexts16 c.method_order
  pub method_slots : FitsList FitsBinding c.method_slots
  pub method_overloads : FitsMap (FitsList IsU16) c.method_overloads
  pub constructor : IsU16 c.constructor
  pub constructor_overloads : FitsList IsU16 c.constructor_overloads
  pub static_methods : FitsList FitsBinding c.static_methods
  pub static_method_overloads : FitsMap (FitsList IsU16) c.static_method_overloads
  pub special_methods : FitsList FitsSpecial c.special_methods
  pub method_visibility : FitsMap (λ s. Short16 s) c.method_visibility
  pub static_visibility : FitsMap (λ s. Short16 s) c.static_visibility
  pub method_annotations : FitsMap ShortTexts16 c.method_annotations
  pub constructor_visibility : Short16 c.constructor_visibility

-- What is read of a class.
abbrev pub kept : EncodedClass → EncodedClass
kept c = record c { fields = map unmarked c.fields; static_fields = map unmarked c.static_fields }

module _ (cp : Pool) where
  abbrev R : Pool → Unit {0} → Type 0
  R = Complete cp

  class-Codec : (c : EncodedClass) → FitsClass c → Codec cp (encode_class c) decode_class (kept c)
  unfolding encode_class decode_class
  class-Codec c h = Reads-seq R _ (Reads-u2 R c.id h.id) (
      Reads-seq R _ (Reads-utf8 R c.name h.name) (
        Reads-seq R _ (Reads-u2 R c.superclass_id h.superclass_id) (
          Reads-seq R _ (Reads-utf8 R c.superclass_name h.superclass_name) (
            Reads-seq R _ (Reads-u2 R c.flags h.flags) (
              Reads-seq R _ (Reads-string_list R c.implements h.implements) (
                Reads-seq R _ (Reads-string_list R c.permits h.permits) (
                  Reads-seq R _ (Reads-string_list R c.enum_order h.enum_order) (
                    Reads-seq R _ (fields-Codec cp c.fields h.fields) (
                      Reads-seq R _ (Reads-string_list R c.field_order h.field_order) (
                        Reads-seq R _ (bindings-Codec cp c.field_slots h.field_slots) (
                          Reads-seq R _ (fields-Codec cp c.static_fields h.static_fields) (
                            Reads-seq R _ (Reads-string_list R c.method_order h.method_order) (
                              Reads-seq R _ (bindings-Codec cp c.method_slots h.method_slots) (
                                Reads-seq R _
                                  (overloads-Codec cp c.method_overloads h.method_overloads)
                                  (Reads-seq R _ (Reads-u2 R c.constructor h.constructor) (
                                    Reads-seq R _
                                      (Reads-u2_list R c.constructor_overloads
                                        h.constructor_overloads)
                                      (Reads-seq R _
                                        (bindings-Codec cp c.static_methods h.static_methods)
                                        (Reads-seq R _
                                          (overloads-Codec cp c.static_method_overloads
                                            h.static_method_overloads)
                                          (Reads-seq R _
                                            (specials-Codec cp c.special_methods h.special_methods)
                                            (Reads-seq R _
                                              (string_map-Codec cp c.method_visibility
                                                h.method_visibility)
                                              (Reads-seq R _
                                                (string_map-Codec cp c.static_visibility
                                                  h.static_visibility)
                                                (Reads-seq R _
                                                  (annotation_map-Codec cp c.method_annotations
                                                    h.method_annotations)
                                                  (Reads-last R
                                                    (λ v. record (kept c) {
                                                      constructor_visibility = v;
                                                    })
                                                    (Reads-utf8 R c.constructor_visibility
                                                      h.constructor_visibility))))))))))))))))))))))))

  pub Codec-classes_attribute :
      (classes : List EncodedClass)
      → FitsList FitsClass classes
      → Codec cp (encode_classes_attribute classes) decode_classes_attribute (map kept classes)
  unfolding encode_classes_attribute decode_classes_attribute
  Codec-classes_attribute classes h =
      Reads-seq R _ (Reads-u2 R (length classes) h.0)
        (each-Codec cp encode_class decode_class kept FitsClass class-Codec classes h.1)
