-- ===== src/Value/Class/Fields.antt =====
-- The fields, indexes, visibilities and constructor plan of a class: what `readClass` reads of them.
use polyloft_bvm.Prelude.{
  ℕ, ◌≡◌, refl, [], ◌∷◌, ◌++◌, append_assoc, append-nil, Option, none, some, Text, TextMap, put,
  put_new, Absent, IsMap, length, All, All-map, map,
}
use polyloft_bvm.Prelude.Word.{FitsInt32}
use polyloft_bvm.Binary.{Writer, Reader, write_u32, read_i32, write_each}
use polyloft_bvm.Binary.Reads.{
  Reads, Reads-seq, Reads-last, Reads-done, Reads-give, Reads-byte, Reads-u32, Reads-i32,
  Reads-bool, Reads-each,
}
use polyloft_bvm.Bytecode.Serialize.{read_map}
use polyloft_bvm.Bytecode.RoundTrip.{Short, Reads-string, Reads-map, IsMap-Absent}
use polyloft_bvm.Value.Class.{
  FieldDef, FastConstructorPlan, write_field_def, write_field, read_field_def, read_field,
  write_fast_constructor, read_fast_plan, read_fast_constructor, write_index, read_index,
  write_visibility, read_visibility, write_counted, read_counted_map,
}

module _ {V : Type 0} where
  pub record FitsField (e : Text × FieldDef V) : Type 0 where
    pub key : Short e.0
    pub type_name : Short e.1.type_name
    pub visibility : Short e.1.visibility

  -- A field without its default, `nil_value`.
  abbrev pub without_default : V → Text × FieldDef V → Text × FieldDef V
  without_default nil_value e = (e.0, record e.1 { default = nil_value })

abbrev pub FitsIndex : Text × ℕ → Type 0
FitsIndex e = Short e.0 × FitsInt32 e.1

abbrev pub FitsVisibility : Text × Text → Type 0
FitsVisibility e = Short e.0 × Short e.1

pub record FitsPlan (p : FastConstructorPlan) : Type 0 where
  pub arity : FitsInt32 p.arity
  pub field_slots : Short p.field_slots
  pub each_slot : All FitsInt32 p.field_slots
  pub arg_indexes : Short p.arg_indexes
  pub each_index : All FitsInt32 p.arg_indexes

abbrev pub FitsPlan? : Option FastConstructorPlan → Type 0
FitsPlan? none = Unit
FitsPlan? (some p) = FitsPlan p

module _ {S T : Type 0} (R : S → T → Type 0) where
  module _ {V : Type 0} (nil_value : V) where
    Reads-field :
        (e : Text × FieldDef V)
        → FitsField e
        → Reads R (write_field e) (read_field nil_value) (without_default nil_value e)
    unfolding write_field read_field write_field_def read_field_def
    Reads-field e h = Reads-seq R _ (Reads-string R e.0 h.key) (
        Reads-last R (λ f. (e.0, f))
          (Reads-seq R _ (Reads-bool R e.1.mutable) (
            Reads-seq R _ (Reads-bool R e.1.is_final) (
              Reads-seq R _ (Reads-string R e.1.type_name h.type_name) (
                Reads-last R (λ v. record e.1 { default = nil_value; visibility = v })
                  (Reads-string R e.1.visibility h.visibility))))))

    Absent-without_default :
        (k : Text) (m : TextMap (FieldDef V))
        → Absent k m
        → Absent k (map (without_default nil_value) m)
    Absent-without_default k [] h = tt
    Absent-without_default k (e ∷ m) h = (h.0, Absent-without_default k m h.1)

    IsMap-without_default :
        (m : TextMap (FieldDef V)) → IsMap m → IsMap (map (without_default nil_value) m)
    IsMap-without_default [] h = tt
    IsMap-without_default ((k, f) ∷ m) h =
        (Absent-without_default k m h.0, IsMap-without_default m h.1)

    read_fields-each :
        (entries m : TextMap (FieldDef V))
        → IsMap (m ++ map (without_default nil_value) entries)
        → All FitsField entries
        → Reads R
            (write_each write_field entries)
            (read_map (read_field nil_value) (length entries) m)
            (m ++ map (without_default nil_value) entries)
    unfolding write_each read_map
    read_fields-each [] m h hs = rw append-nil (Reads-give R m)
    read_fields-each ((k, f) ∷ entries) m h (e, es) =
        let g : FieldDef V = record f { default = nil_value } in
        let keep : m ++ (k, g) ∷ map (without_default nil_value) entries
            ≡ put k g m ++ map (without_default nil_value) entries =
          rw (
            put_new k g m (IsMap-Absent k g m (map (without_default nil_value) entries) h),
            append_assoc,
          ) in
        rw keep (
          Reads-seq R (λ e. read_map (read_field nil_value) (length entries) (put e.0 e.1 m))
            (Reads-field (k, f) e) (read_fields-each entries (put k g m) (rw keep at h) es))

    -- A map of fields: its loop forgets the defaults alone.
    pub Reads-fields :
        (entries : TextMap (FieldDef V))
        → Short entries
        → IsMap entries
        → All FitsField entries
        → Reads R
            (write_counted write_field entries)
            (read_counted_map (read_field nil_value))
            (map (without_default nil_value) entries)
    unfolding write_counted read_counted_map
    Reads-fields entries s h hs =
        Reads-seq R _ (Reads-u32 R (length entries) s)
          (read_fields-each entries [] (IsMap-without_default entries h) hs)

  module _ {V : Type 0} (write : Text × V → Writer S) (read : Reader T (Text × V)) where
    pub Reads-counted_map :
        (entries : TextMap V)
        → Short entries
        → IsMap entries
        → All (λ e. Reads R (write e) read e) entries
        → Reads R (write_counted write entries) (read_counted_map read) entries
    unfolding write_counted read_counted_map
    Reads-counted_map entries s h hs =
        Reads-seq R _ (Reads-u32 R (length entries) s) (Reads-map R write read entries h hs)

  pub Reads-index : (e : Text × ℕ) → FitsIndex e → Reads R (write_index e) read_index e
  unfolding write_index read_index
  Reads-index e h =
      Reads-seq R _ (Reads-string R e.0 h.0) (Reads-last R (λ v. (e.0, v)) (Reads-i32 R e.1 h.1))

  pub Reads-visibility :
      (e : Text × Text) → FitsVisibility e → Reads R (write_visibility e) read_visibility e
  unfolding write_visibility read_visibility
  Reads-visibility e h =
      Reads-seq R _ (Reads-string R e.0 h.0) (Reads-last R (λ v. (e.0, v)) (Reads-string R e.1 h.1))

  pub Reads-fast_constructor :
      (p : Option FastConstructorPlan)
      → FitsPlan? p
      → Reads R (write_fast_constructor p) read_fast_constructor p
  unfolding write_fast_constructor read_fast_constructor read_fast_plan
  Reads-fast_constructor none h = Reads-done R _ refl (Reads-byte R 0)
  Reads-fast_constructor (some p) h = Reads-seq R _ (Reads-byte R 1) (
      Reads-last R (λ q. some q)
        (Reads-seq R _ (Reads-i32 R p.arity h.arity) (
          Reads-seq R _ (Reads-u32 R (length p.field_slots) h.field_slots) (
            Reads-seq R _
              (Reads-each R write_u32 read_i32 p.field_slots
                (All-map (Reads-i32 R) p.field_slots h.each_slot))
              (Reads-seq R _ (Reads-u32 R (length p.arg_indexes) h.arg_indexes) (
                Reads-last R (λ args. record p { arg_indexes = args })
                  (Reads-each R write_u32 read_i32 p.arg_indexes
                    (All-map (Reads-i32 R) p.arg_indexes h.each_index))))))))
