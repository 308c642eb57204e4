-- ===== src/ClassFile/Classes/Parts.antt =====
-- The lists and maps of a class are read back.
use polyloft_bvm.Prelude.{
  ℕ, Bool, true, false, List, [], ◌∷◌, Text, TextMap, length, map, All, All-map, arith, ◌==◌,
  if◌then◌else◌,
}
use polyloft_bvm.Prelude.Word.{IsByte, IsU16}
use polyloft_bvm.Binary.{write_each, read_each, ◌>>=◌, give}
use polyloft_bvm.Binary.Reads.{Reads-seq, Reads-last, Reads-give, Reads-each}
use polyloft_bvm.ClassFile.Wire.{
  write_u1, read_u1, write_utf8, read_utf8, write_string_list, read_string_list, write_u2_list,
  read_u2_list, write_string_map, read_string_map, write_annotation_map, read_annotation_map,
  write_overloads, read_overloads,
}
use polyloft_bvm.ClassFile.Wire.Reads.{
  Short16, ShortTexts16, FitsMap, Reads-u1, Reads-u2, Reads-utf8, Reads-string_list, Reads-u2_list,
  Reads-listed,
}
use polyloft_bvm.ClassFile.Pool.{Pool}
use polyloft_bvm.ClassFile.Attribute.{Out, In}
use polyloft_bvm.ClassFile.Attribute.Reads.{Complete, Codec}
use polyloft_bvm.ClassFile.Classes.{
  EncodedFieldDef, EncodedMethodBinding, EncodedSpecialMethod, write_encoded_field_def,
  read_encoded_field_def, write_encoded_field_defs, read_encoded_field_defs, write_method_binding,
  read_method_binding, write_method_bindings, read_method_bindings, write_special_method,
  read_special_method, write_special_methods, read_special_methods,
}

pub record FitsFieldDef (f : EncodedFieldDef) : Type 0 where
  pub name : Short16 f.name
  pub type_name : Short16 f.type_name
  pub visibility : Short16 f.visibility

abbrev pub FitsBinding : EncodedMethodBinding → Type 0
FitsBinding b = Short16 b.name × IsU16 b.method_index

abbrev pub FitsSpecial : EncodedSpecialMethod → Type 0
FitsSpecial m = IsByte m.slot × IsU16 m.method_index

abbrev pub FitsList {ℓ} : {A : Type ℓ} → (A → Type 0) → List A → Type 0
FitsList Fits list = Short16 list × All Fits list

-- A field loses the mark of a final field.
abbrev pub unmarked : EncodedFieldDef → EncodedFieldDef
unmarked f = record f { is_final = false }

module _ (cp : Pool) where
  abbrev R : Pool → Unit {0} → Type 0
  R = Complete cp

  flag-Codec {ℓ} :
      {B : Type ℓ} (b : Bool) (k : Bool → B)
      → Codec cp (write_u1 (if b then 1 else 0)) (read_u1 >>= λ x. give (k (x == 1))) (k b)
  flag-Codec true k = Reads-last R (λ x. k (x == 1)) (Reads-u1 R 1 (omega arith))
  flag-Codec false k = Reads-last R (λ x. k (x == 1)) (Reads-u1 R 0 (omega arith))

  field-Codec :
      (f : EncodedFieldDef)
      → FitsFieldDef f
      → Codec cp (write_encoded_field_def f) read_encoded_field_def (unmarked f)
  unfolding write_encoded_field_def read_encoded_field_def
  field-Codec f h = Reads-seq R _ (Reads-utf8 R f.name h.name) (
      Reads-seq R _ (Reads-utf8 R f.type_name h.type_name) (
        Reads-seq R _ (Reads-utf8 R f.visibility h.visibility)
          (flag-Codec f.mutable (λ mutable. record f { mutable = mutable; is_final = false }))))

  binding-Codec :
      (b : EncodedMethodBinding)
      → FitsBinding b
      → Codec cp (write_method_binding b) read_method_binding b
  unfolding write_method_binding read_method_binding
  binding-Codec b h =
      Reads-seq R _ (Reads-utf8 R b.name h.0)
        (Reads-last R (λ index. record b { method_index = index }) (Reads-u2 R b.method_index h.1))

  special-Codec :
      (m : EncodedSpecialMethod)
      → FitsSpecial m
      → Codec cp (write_special_method m) read_special_method m
  unfolding write_special_method read_special_method
  special-Codec m h =
      Reads-seq R _ (Reads-u1 R m.slot h.0)
        (Reads-last R (λ index. record m { method_index = index }) (Reads-u2 R m.method_index h.1))

  -- A list whose elements are read back as `g` of them.
  pub each-Codec :
      {A B : Type 0} (write : A → Out) (read : In B) (g : A → B) (Fits : A → Type 0)
      (codec : (a : A) → Fits a → Codec cp (write a) read (g a)) (list : List A)
      → All Fits list
      → Codec cp (write_each write list) (read_each read (length list)) (map g list)
  unfolding write_each read_each
  each-Codec write read g Fits codec [] h = Reads-give R []
  each-Codec write read g Fits codec (a ∷ list) h =
      Reads-seq R _ (codec a h.0)
        (Reads-last R (λ rest. g a ∷ rest) (each-Codec write read g Fits codec list h.1))

  pub fields-Codec :
      (defs : List EncodedFieldDef)
      → FitsList FitsFieldDef defs
      → Codec cp (write_encoded_field_defs defs) read_encoded_field_defs (map unmarked defs)
  unfolding write_encoded_field_defs read_encoded_field_defs
  fields-Codec defs h = Reads-seq R _ (Reads-u2 R (length defs) h.0) (
      each-Codec write_encoded_field_def read_encoded_field_def unmarked FitsFieldDef field-Codec
        defs h.1)

  pub bindings-Codec :
      (bs : List EncodedMethodBinding)
      → FitsList FitsBinding bs
      → Codec cp (write_method_bindings bs) read_method_bindings bs
  unfolding write_method_bindings read_method_bindings
  bindings-Codec bs h =
      Reads-seq R _ (Reads-u2 R (length bs) h.0)
        (Reads-each R write_method_binding read_method_binding bs (All-map binding-Codec bs h.1))

  pub specials-Codec :
      (ms : List EncodedSpecialMethod)
      → FitsList FitsSpecial ms
      → Codec cp (write_special_methods ms) read_special_methods ms
  unfolding write_special_methods read_special_methods
  specials-Codec ms h =
      Reads-seq R _ (Reads-u2 R (length ms) h.0)
        (Reads-each R write_special_method read_special_method ms (All-map special-Codec ms h.1))

  pub string_map-Codec :
      (m : TextMap Text)
      → FitsMap (λ s. Short16 s) m
      → Codec cp (write_string_map m) read_string_map m
  unfolding write_string_map read_string_map
  string_map-Codec m h = Reads-listed R write_utf8 read_utf8 (λ s. Short16 s) (Reads-utf8 R) m h

  pub annotation_map-Codec :
      (m : TextMap (List Text))
      → FitsMap ShortTexts16 m
      → Codec cp (write_annotation_map m) read_annotation_map m
  unfolding write_annotation_map read_annotation_map
  annotation_map-Codec m h =
      Reads-listed R write_string_list read_string_list ShortTexts16 (Reads-string_list R) m h

  pub overloads-Codec :
      (m : TextMap (List ℕ))
      → FitsMap (FitsList IsU16) m
      → Codec cp (write_overloads m) read_overloads m
  unfolding write_overloads read_overloads
  overloads-Codec m h =
      Reads-listed R write_u2_list read_u2_list (FitsList IsU16) (Reads-u2_list R) m h
