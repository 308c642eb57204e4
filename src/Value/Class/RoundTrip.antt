-- ===== src/Value/Class/RoundTrip.antt =====
-- What `readClass` reads of what `writeClass` wrote, and what the format loses.
use polyloft_bvm.Prelude.{ℕ, [], Option, none, Text, TextMap, IsMap, All, All-map, arith, map}
use polyloft_bvm.Binary.{Writer, Reader}
use polyloft_bvm.Binary.Reads.{Outcome, Reads, Reads-seq, Reads-last, Reads-u32, Reads-bool}
use polyloft_bvm.Bytecode.RoundTrip.{Short, ShortTexts, Reads-string, Reads-string_slice}
use polyloft_bvm.Value.Class.{
  FieldDef, Class, special_method_slots, write_field, read_field, write_counted, read_counted_map,
  write_index, read_index, write_visibility, read_visibility,
}
use polyloft_bvm.Value.Class.Layout.{
  read_counted_methods, write_named_method, write_class, read_class,
}
use polyloft_bvm.Value.Class.Fields.{
  FitsField, without_default, Reads-fields, Reads-counted_map, FitsIndex, Reads-index,
  FitsVisibility, Reads-visibility, FitsPlan?, Reads-fast_constructor,
}
use polyloft_bvm.Value.Class.Methods.{
  Each, present, kept, Reads-method?, Reads-method_table, FitsNamed, Reads-methods, GoodSlots,
  Reads-specials,
}

module _ {F V P : Type 0} (nil_value : V) where
  -- What is left of a class: the superclass, the implemented and permitted types, the annotations, the
  -- overloads, the fast methods, the static values and the defaults are lost, and so are nil methods.
  pub stored : Class F V P → Class F V P
  stored c = record {
    name = c.name;
    superclass = none;
    implements = [];
    permits = [];
    is_abstract = c.is_abstract;
    is_enum = c.is_enum;
    is_sealed = c.is_sealed;
    is_record = c.is_record;
    enum_order = c.enum_order;
    fields = map (without_default nil_value) c.fields;
    field_order = c.field_order;
    field_index = c.field_index;
    static_fields = map (without_default nil_value) c.static_fields;
    method_visibility = c.method_visibility;
    static_visibility = c.static_visibility;
    constructor_visibility = c.constructor_visibility;
    method_annotations = [];
    fast_constructor = c.fast_constructor;
    fast_methods = [];
    fast_static_methods = [];
    method_order = c.method_order;
    method_index = c.method_index;
    method_table = c.method_table;
    methods = present c.methods;
    method_overloads = [];
    constructor = c.constructor;
    constructor_overloads = [];
    static_methods = present c.static_methods;
    static_method_overloads = [];
    static_values = [];
    special_methods = kept c.special_methods;
    default_fields = [];
  }

module _ {F V P : Type 0} where
  -- What the format can hold, with functions that are `Good` for the codec of functions.
  pub record FitsClass (Good : F → Type 0) (c : Class F V P) : Type 0 where
    pub name : Short c.name
    pub fast_constructor : FitsPlan? c.fast_constructor
    pub enum_order : ShortTexts c.enum_order
    pub fields : Short c.fields × IsMap c.fields × All FitsField c.fields
    pub field_order : ShortTexts c.field_order
    pub field_index : Short c.field_index × IsMap c.field_index × All FitsIndex c.field_index
    pub method_order : ShortTexts c.method_order
    pub method_index : Short c.method_index × IsMap c.method_index × All FitsIndex c.method_index
    pub method_table : Short c.method_table × All (Each Good) c.method_table
    pub methods : Short c.methods × IsMap (present c.methods) × All (FitsNamed Good) c.methods
    pub constructor : Each Good c.constructor
    pub constructor_visibility : Short c.constructor_visibility
    pub static_fields :
        Short c.static_fields × IsMap c.static_fields × All FitsField c.static_fields
    pub static_methods :
        Short c.static_methods
        × IsMap (present c.static_methods)
        × All (FitsNamed Good) c.static_methods
    pub method_visibility :
        Short c.method_visibility
        × IsMap c.method_visibility
        × All FitsVisibility c.method_visibility
    pub static_visibility :
        Short c.static_visibility
        × IsMap c.static_visibility
        × All FitsVisibility c.static_visibility
    pub special_methods : GoodSlots Good c.special_methods special_method_slots

module _ {S T F V : Type 0} (R : S → T → Type 0) (nil_value : V) (write_fn : F → Writer S)
    (read_fn : Reader T F) (Good : F → Type 0)
    (law : (f : F) → Good f → Reads R (write_fn f) read_fn f) where
  fields :
      (m : TextMap (FieldDef V))
      → Short m × IsMap m × All FitsField m
      → Reads R
          (write_counted write_field m)
          (read_counted_map (read_field nil_value))
          (map (without_default nil_value) m)
  fields m (s, h, hs) = Reads-fields R nil_value m s h hs

  indexes :
      (m : TextMap ℕ)
      → Short m × IsMap m × All FitsIndex m
      → Reads R (write_counted write_index m) (read_counted_map read_index) m
  indexes m (s, h, hs) =
      Reads-counted_map R write_index read_index m s h (All-map (Reads-index R) m hs)

  visibilities :
      (m : TextMap Text)
      → Short m × IsMap m × All FitsVisibility m
      → Reads R (write_counted write_visibility m) (read_counted_map read_visibility) m
  visibilities m (s, h, hs) =
      Reads-counted_map R write_visibility read_visibility m s h (All-map (Reads-visibility R) m hs)

  methods :
      (m : TextMap (Option F))
      → Short m × IsMap (present m) × All (FitsNamed Good) m
      → Reads R
          (write_counted (write_named_method write_fn) m)
          (read_counted_methods read_fn)
          (present m)
  methods m (s, h, hs) = Reads-methods R write_fn read_fn Good law m s h hs

  pub Reads-class :
      {P : Type 0} (c : Class F V P)
      → FitsClass Good c
      → Reads R (write_class write_fn c) (read_class nil_value read_fn) (stored nil_value c)
  unfolding write_class read_class stored
  Reads-class c h = Reads-seq R _ (Reads-string R c.name h.name) (
      Reads-seq R _ (Reads-bool R c.is_abstract) (
        Reads-seq R _ (Reads-bool R c.is_enum) (
          Reads-seq R _ (Reads-bool R c.is_sealed) (
            Reads-seq R _ (Reads-bool R c.is_record) (
              Reads-seq R _ (Reads-fast_constructor R c.fast_constructor h.fast_constructor) (
                Reads-seq R _ (Reads-u32 R 0 (omega arith)) (
                  Reads-seq R _ (Reads-u32 R 0 (omega arith)) (
                    Reads-seq R _ (Reads-string_slice R c.enum_order h.enum_order) (
                      Reads-seq R _ (fields c.fields h.fields) (
                        Reads-seq R _ (Reads-string_slice R c.field_order h.field_order) (
                          Reads-seq R _ (indexes c.field_index h.field_index) (
                            Reads-seq R _ (Reads-string_slice R c.method_order h.method_order) (
                              Reads-seq R _ (indexes c.method_index h.method_index) (
                                Reads-seq R _
                                  (Reads-method_table R write_fn read_fn Good law c.method_table
                                    h.method_table.0 h.method_table.1)
                                  (Reads-seq R _ (methods c.methods h.methods) (
                                    Reads-seq R _
                                      (Reads-method? R write_fn read_fn Good law c.constructor
                                        h.constructor)
                                      (Reads-seq R _
                                        (Reads-string R c.constructor_visibility
                                          h.constructor_visibility)
                                        (Reads-seq R _ (fields c.static_fields h.static_fields) (
                                          Reads-seq R _ (Reads-u32 R 0 (omega arith)) (
                                            Reads-seq R _
                                              (methods c.static_methods h.static_methods)
                                              (Reads-seq R _
                                                (visibilities c.method_visibility
                                                  h.method_visibility)
                                                (Reads-seq R _
                                                  (visibilities c.static_visibility
                                                    h.static_visibility)
                                                  (Reads-last R
                                                    (λ special. record (stored nil_value c) {
                                                      special_methods = special;
                                                    })
                                                    (Reads-specials R write_fn read_fn Good law
                                                      c.special_methods
                                                      h.special_methods))))))))))))))))))))))))

  -- From states of the two sides that correspond, `writeClass` succeeds on every class that the format
  -- can hold and `readClass` takes exactly the bytes written and returns `stored c`, if the codec of
  -- functions reads back the class's functions.
  pub read_class-write_class :
      {P : Type 0} (c : Class F V P) (s : S) (t : T)
      → FitsClass Good c
      → R s t
      → Outcome R (write_class write_fn c) (read_class nil_value read_fn) (stored nil_value c) s t
  read_class-write_class c s t h r = Reads-class c h s t r
