-- ===== src/ClassFile/Module/RoundTrip.antt =====
-- `readModuleClassFile` reads back what `writeModuleClassFile` wrote.
use polyloft_bvm.Prelude.{
  ℕ, suc, ◌+◌, ◌≤◌, ◌≡◌, refl, ◌∙◌, ap, true, List, [], ◌∷◌, ◌++◌, some, Text, length, map, arith,
}
use polyloft_bvm.Prelude.Word.{IsU16}
use polyloft_bvm.Binary.{Result, ok, err, Bytes, give, read_each}
use polyloft_bvm.Binary.Reads.{Reads-seq, Reads-done}
use polyloft_bvm.ClassFile.Wire.{read_u2}
use polyloft_bvm.ClassFile.Wire.Reads.{Reads-u2, Reads-u4}
use polyloft_bvm.ClassFile.Pool.{Entry, Pool, attribute_name, pool_class, read_pool_utf8, read_cp}
use polyloft_bvm.ClassFile.Pool.Entries.{Reads-cp}
use polyloft_bvm.ClassFile.Pool.Requests.{name, At-Resolves, entry_bound}
use polyloft_bvm.ClassFile.Pool.Builder.{IsPool}
use polyloft_bvm.ClassFile.Attribute.Reads.{Complete, Codec, Knows, Codec-silent}
use polyloft_bvm.ClassFile.Classes.Parts.{FitsList, each-Codec}
use polyloft_bvm.ClassFile.Method.{
  EncodedMethod, DecodedMethod, lines_name, code_name, method_name, write_methods,
  write_method_info, read_method_info,
}
use polyloft_bvm.ClassFile.Method.Code.{FitsMethod, seen, Codec-method_info}
use polyloft_bvm.ClassFile.Module.{
  FieldInfo, ModuleState, Parsed, module_name, classes_name, metadata_name, magic_number,
  major_version, minor_version, write_pool, write_field, write_fields, write_content, write_module,
  skip_member, has_entry, read_members, read_module, skip_fields, read_methods,
}
use polyloft_bvm.ClassFile.Module.Attributes.{FitsAttributes, parsed, Codec-class_attributes}

abbrev text_or_empty : Result Text → Text
text_or_empty (ok v) = v
text_or_empty (err p) = []

abbrev pub pool_text : List Entry → ℕ → Text
pool_text es i = text_or_empty (read_pool_utf8 es i)

-- What is read of a method, with the names that the pool has at its indices.
abbrev pub seen_in : Pool → EncodedMethod → DecodedMethod
seen_in cp m =
    seen cp cp.entries (pool_text cp.entries m.name_index) (pool_text cp.entries m.descriptor_index)
      m

abbrev pub FitsField : FieldInfo → Type 0
FitsField f = IsU16 f.access_flags × IsU16 f.name_index × IsU16 f.descriptor_index

-- A method fits, and the pool has its name and descriptor.
pub record FitsNamed (cp : Pool) (m : EncodedMethod) : Type 0 where
  pub fits : FitsMethod cp cp.entries m
  pub name : read_pool_utf8 cp.entries m.name_index ≡ ok (pool_text cp.entries m.name_index)
  pub descriptor :
      read_pool_utf8 cp.entries m.descriptor_index ≡ ok (pool_text cp.entries m.descriptor_index)

-- The builder has been asked for the names of the attributes.
abbrev pub Registered : Pool → Text → Type 0
Registered cp v = (i : ℕ) × (cp.attribute_names v ≡ some i)

pub record FitsModule (cp : Pool) (st : ModuleState) : Type 0 where
  pub pool : IsPool cp
  pub places : IsU16 (length cp.entries + 1)
  pub fields : FitsList FitsField st.fields
  pub methods : FitsList (FitsNamed cp) st.methods
  pub attributes : FitsAttributes cp cp.entries st
  pub entry : (1 ≤ st.entry_method) × (st.entry_method ≤ length st.methods)
  pub code_registered : Registered cp code_name
  pub lines_registered : Registered cp lines_name
  pub method_registered : Registered cp method_name
  pub module_registered : Registered cp module_name
  pub classes_registered : Registered cp classes_name
  pub metadata_registered : Registered cp metadata_name

-- What is read of a module: the classes without the marks of final fields.
abbrev pub read_of : Pool → ModuleState → Parsed
read_of cp st = parsed cp cp.entries st (map (seen_in cp) st.methods)

length-map {ℓ κ} :
    {A : Type ℓ} {B : Type κ} (f : A → B) (xs : List A) → length (map f xs) ≡ length xs
length-map f [] = refl
length-map f (x ∷ xs) = ap suc (length-map f xs)

module _ (cp : Pool) (places : IsU16 (length cp.entries + 1)) (pool : IsPool cp) where
  abbrev R : Pool → Unit {0} → Type 0
  R = Complete cp

  knows : (v : Text) → Registered cp v → Knows cp cp.entries v
  knows v (i, e) =
      let at = pool.sound (name v) i e in
      record {
        index = i;
        small = omega (arith, entry_bound cp.entries i _ at, places);
        asked = unfold attribute_name in (rw (e, attribute_name) refl);
        resolved = At-Resolves cp.entries (name v) i at;
      }

  Codec-pool : Codec cp write_pool read_cp cp.entries
  unfolding write_pool
  Codec-pool s t rel =
      let o = Reads-cp R cp.entries pool.layout places cp t refl in
      record {
        bytes = o.bytes;
        after_write = o.after_write;
        after_read = o.after_read;
        related = o.related;
        written = rw rel o.written;
        read = o.read;
      }

  field-Codec : (f : FieldInfo) → FitsField f → Codec cp (write_field f) skip_member []
  unfolding write_field skip_member read_each
  field-Codec f h = Reads-seq R _ (Reads-u2 R f.access_flags h.0) (
      Reads-seq R _ (Reads-u2 R f.name_index h.1) (
        Reads-seq R _ (Reads-u2 R f.descriptor_index h.2)
          (Reads-done R _ refl (Reads-u2 R 0 (omega arith)))))

  fields-Codec :
      (fields : List FieldInfo)
      → FitsList FitsField fields
      → Codec cp (write_fields fields) skip_fields (map (λ f. []) fields)
  unfolding write_fields skip_fields
  fields-Codec fields h =
      Reads-seq R _ (Reads-u2 R (length fields) h.0)
        (each-Codec cp write_field skip_member (λ f. []) FitsField field-Codec fields h.1)

  methods-Codec :
      (st : ModuleState)
      → FitsModule cp st
      → Codec cp (write_methods st.methods) (read_methods cp.entries) (map (seen_in cp) st.methods)
  unfolding write_methods read_methods
  methods-Codec st h = Reads-seq R _ (Reads-u2 R (length st.methods) h.methods.0) (
      each-Codec cp write_method_info (read_method_info cp.entries) (seen_in cp) (FitsNamed cp)
        (λ m f.
          Codec-method_info cp cp.entries m (pool_text cp.entries m.name_index)
            (pool_text cp.entries m.descriptor_index) f.fits (knows lines_name h.lines_registered)
            (knows code_name h.code_registered) (knows method_name h.method_registered) f.name
            f.descriptor)
        st.methods h.methods.1)

  content-Codec :
      (st : ModuleState) (this_class : ℕ)
      → IsU16 this_class
      → FitsModule cp st
      → Codec cp (write_content st this_class) read_module (read_of cp st)
  unfolding write_content read_module read_members read_each
  content-Codec st this_class t h =
      let entry : has_entry (read_of cp st) ≡ true =
        ground (arith, length-map (seen_in cp) st.methods, h.entry) in
      let tail =
        Codec-class_attributes cp cp.entries st (map (seen_in cp) st.methods) h.attributes
          (knows module_name h.module_registered) (knows classes_name h.classes_registered)
          (knows metadata_name h.metadata_registered) in
      Reads-seq R _ (Reads-u4 R magic_number (omega arith)) (
        Reads-seq R _ (Reads-u2 R minor_version (omega arith)) (
          Reads-seq R _ (Reads-u2 R major_version (omega arith)) (
            Reads-seq R _ Codec-pool (
              Reads-seq R _ (Reads-u2 R 0x11 (omega arith)) (
                Reads-seq R _ (Reads-u2 R this_class t) (
                  Reads-seq R _ (Reads-u2 R 0 (omega arith)) (
                    Reads-seq R _ (Reads-u2 R 0 (omega arith)) (
                      Codec-silent cp _ (read_each read_u2 0) [] (λ bs t. unfold give in refl)
                        (Reads-seq R _ (fields-Codec st.fields h.fields) (
                          Reads-seq R _ (methods-Codec st h)
                            (Reads-done R _ (rw entry refl) tail)))))))))))

-- On a pool that the builder has built, with the names of the attributes, `writeModuleClassFile` succeeds
-- on every module that the format can hold, and `readModuleClassFile` takes exactly what it wrote and has
-- the methods with their names, code, lines and other data, the entry method, the metadata, and the
-- classes without the marks of final fields.
pub read_module-write_module :
    (st : ModuleState) (cp : Pool)
    → IsU16 (pool_class st.class_name cp).0
    → FitsModule (pool_class st.class_name cp).1 st
    → (bytes : Bytes) × (write_module st cp ≡ ok (bytes, (pool_class st.class_name cp).1))
      × ((rest : Bytes)
          → read_module (bytes ++ rest) tt
            ≡ ok (read_of (pool_class st.class_name cp).1 st, rest, tt))
unfolding write_module
read_module-write_module st cp i h =
    let cp' = (pool_class st.class_name cp).1 in
    let o = content-Codec cp' h.places h.pool st (pool_class st.class_name cp).0 i h cp' tt refl in
    (o.bytes, o.written ∙ ap (λ c. ok (o.bytes, c)) o.related, λ rest. o.read rest)
