-- ===== src/ClassFile/Module/Attributes.antt =====
-- The three attributes of a module are read back.
use polyloft_bvm.Prelude.{ℕ, ◌≡◌, refl, ap, List, [], same_text, length, map, arith}
use polyloft_bvm.Prelude.Word.{IsU16, IsU32}
use polyloft_bvm.Binary.{ok, emit, le_bytes, Bytes, ◌>>◌}
use polyloft_bvm.Binary.Reads.{Reads-seq, Reads-done}
use polyloft_bvm.ClassFile.Wire.{be_bytes, write_u2, read_u2}
use polyloft_bvm.ClassFile.Wire.Reads.{Reads-u2}
use polyloft_bvm.ClassFile.Pool.{Entry, Pool}
use polyloft_bvm.ClassFile.Attribute.{decoded, write_attribute}
use polyloft_bvm.ClassFile.Attribute.Reads.{
  Complete, Codec, Sized, size_of, Knows, Codec-buffered, Codec-named, Codec-after, Codec-attribute,
}
use polyloft_bvm.ClassFile.Classes.{encode_classes_attribute, decode_classes_attribute}
use polyloft_bvm.ClassFile.Classes.Parts.{FitsList}
use polyloft_bvm.ClassFile.Classes.RoundTrip.{FitsClass, kept, Codec-classes_attribute}
use polyloft_bvm.ClassFile.Method.{DecodedMethod}
use polyloft_bvm.ClassFile.Module.{
  ModuleState, Parsed, module_name, classes_name, metadata_name, write_class_attributes,
  read_class_attributes, read_class_info,
}

module _ (cp : Pool) (es : List Entry) (st : ModuleState) where
  abbrev R : Pool → Unit {0} → Type 0
  R = Complete cp

  -- What the format holds of the attributes of a module.
  pub record FitsAttributes : Type 0 where
    pub entry_method : IsU16 st.entry_method
    pub classes : FitsList FitsClass st.classes
    pub classes_size : Sized cp (encode_classes_attribute st.classes)
    pub metadata : IsU32 (length st.metadata)

  abbrev pub parsed : List DecodedMethod → Parsed
  parsed methods = record {
    methods = methods;
    entry_method = st.entry_method;
    classes = map kept st.classes;
    metadata = st.metadata;
  }

  three_attributes :
      (methods : List DecodedMethod) (entry classes : Bytes)
      → decoded read_u2 entry ≡ ok st.entry_method
      → decoded decode_classes_attribute classes ≡ ok (map kept st.classes)
      → (i : Knows cp es module_name) → (j : Knows cp es classes_name)
      → (k : Knows cp es metadata_name) → IsU32 (length entry)
      → IsU32 (length classes)
      → IsU32 (length st.metadata)
      → Codec cp
          (write_attribute i.index entry
            >> (write_attribute j.index classes >> write_attribute k.index st.metadata))
          (read_class_attributes es 3
            (record { methods = methods; entry_method = 0; classes = []; metadata = [] }))
          (parsed methods)
  unfolding read_class_attributes same_text
  three_attributes methods entry classes e f i j k u v w =
      Reads-seq R _ (Codec-attribute cp es module_name i entry u) (
        Codec-after cp _ _ st.entry_method e (
          Reads-seq R _ (Codec-attribute cp es classes_name j classes v) (
            Codec-after cp _ _ (map kept st.classes) f
              (Reads-done R _ refl (Codec-attribute cp es metadata_name k st.metadata w)))))

  word-Sized : (v : ℕ) → Sized cp (write_u2 v)
  unfolding write_u2 emit be_bytes le_bytes
  word-Sized v bs after e = let two : 2 ≡ length bs = ap size_of e in omega (arith, two)

  pub Codec-class_attributes :
      (methods : List DecodedMethod)
      → FitsAttributes
      → Knows cp es module_name
      → Knows cp es classes_name
      → Knows cp es metadata_name
      → Codec cp (write_class_attributes st) (read_class_info es methods) (parsed methods)
  unfolding write_class_attributes read_class_info
  Codec-class_attributes methods h i j k =
      Codec-buffered cp (Reads-u2 R st.entry_method h.entry_method) (word-Sized st.entry_method)
        λ entry e u. Codec-named cp _ es module_name i (
          Codec-buffered cp (Codec-classes_attribute cp st.classes h.classes) h.classes_size
            λ classes f v. Codec-named cp _ es classes_name j (
              Codec-named cp _ es metadata_name k (
                Reads-seq R _ (Reads-u2 R 3 (omega arith))
                  (three_attributes methods entry classes e f i j k u v h.metadata))))
