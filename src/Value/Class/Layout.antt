-- ===== src/Value/Class/Layout.antt =====
-- internal/value/serialize.go: `writeClass` and `readClass`.
use polyloft_bvm.Prelude.{
  ℕ, zero, suc, List, [], ◌∷◌, Option, none, some, Text, TextMap, put, ◌==◌, if◌then◌else◌,
}
use polyloft_bvm.Binary.{
  Writer, Reader, ◌>>◌, ◌>>=◌, give, write_byte, write_u32, write_bool, read_byte, read_u32,
  read_bool,
}
use polyloft_bvm.Bytecode.Serialize.{
  write_string, read_string, write_string_slice, read_string_slice,
}
use polyloft_bvm.Value.Class.{
  Class, special_method_slots, write_field, read_field, write_fast_constructor,
  read_fast_constructor, write_index, read_index, write_visibility, read_visibility, write_counted,
  read_counted, read_counted_map,
}

module _ {F : Type 0} where
  abbrev pub declare_slot : ℕ → Option F → List (ℕ × F) → List (ℕ × F)
  declare_slot slot none rest = rest
  declare_slot slot (some f) rest = (slot, f) ∷ rest

  -- The slots for which `DeclaredSpecialMethod` answers, with their functions.
  abbrev pub declared : (ℕ → Option F) → List ℕ → List (ℕ × F)
  declared special [] = []
  declared special (slot ∷ slots) = declare_slot slot (special slot) (declared special slots)

  -- `if has == 1 { c.Methods[k] = m }`.
  abbrev pub put_method : Text → Option F → TextMap (Option F) → TextMap (Option F)
  put_method k none m = m
  put_method k (some f) m = put k (some f) m

  abbrev pub update_slot : (ℕ → Option F) → ℕ → F → ℕ → Option F
  update_slot m slot f j = if slot == j then some f else m j

module _ {S F : Type 0} (write_fn : F → Writer S) where
  -- `if m == nil { 0 } else { 1; m.WriteBinary(w, enc) }`.
  unfoldable pub write_method? : Option F → Writer S
  write_method? none = write_byte 0
  write_method? (some m) = do write_byte 1; write_fn m

  -- An entry of `Methods` and `StaticMethods`.
  unfoldable pub write_named_method : Text × Option F → Writer S
  write_named_method e = do write_string e.0; write_method? e.1

  unfoldable pub write_special : ℕ × F → Writer S
  write_special e = do write_byte e.0; write_fn e.1

module _ {S F : Type 0} (read_fn : Reader S F) where
  unfoldable pub read_method? : Reader S (Option F)
  read_method? = do
    has ← read_byte
    if has == 1 then (read_fn >>= λ m. give (some m)) else give none

  unfoldable pub read_named_method : Reader S (Text × Option F)
  read_named_method = do k ← read_string; f ← read_method?; give (k, f)

  -- The loops that fill `Methods` and `StaticMethods`.
  unfoldable pub read_methods : ℕ → TextMap (Option F) → Reader S (TextMap (Option F))
  read_methods zero m = give m
  read_methods (suc n) m = do e ← read_named_method; read_methods n (put_method e.0 e.1 m)

  unfoldable pub read_counted_methods : Reader S (TextMap (Option F))
  read_counted_methods = do n ← read_u32; read_methods n []

  unfoldable pub read_special : Reader S (ℕ × F)
  read_special = do slot ← read_byte; f ← read_fn; give (slot, f)

  -- The loop that fills `SpecialMethods`.
  unfoldable pub read_specials : ℕ → (ℕ → Option F) → Reader S (ℕ → Option F)
  read_specials zero m = give m
  read_specials (suc n) m = do e ← read_special; read_specials n (update_slot m e.0 e.1)

  unfoldable pub read_counted_specials : Reader S (ℕ → Option F)
  read_counted_specials = do n ← read_u32; read_specials n (λ slot. none)

module _ {S F V P : Type 0} (write_fn : F → Writer S) where
  -- `writeClass`. `Implements`, `Permits` and `StaticValues` are written as empty.
  unfoldable pub write_class : Class F V P → Writer S
  write_class c = do
    write_string c.name
    write_bool c.is_abstract
    write_bool c.is_enum
    write_bool c.is_sealed
    write_bool c.is_record
    write_fast_constructor c.fast_constructor
    write_u32 0
    write_u32 0
    write_string_slice c.enum_order
    write_counted write_field c.fields
    write_string_slice c.field_order
    write_counted write_index c.field_index
    write_string_slice c.method_order
    write_counted write_index c.method_index
    write_counted (write_method? write_fn) c.method_table
    write_counted (write_named_method write_fn) c.methods
    write_method? write_fn c.constructor
    write_string c.constructor_visibility
    write_counted write_field c.static_fields
    write_u32 0
    write_counted (write_named_method write_fn) c.static_methods
    write_counted write_visibility c.method_visibility
    write_counted write_visibility c.static_visibility
    write_counted (write_special write_fn) (declared c.special_methods special_method_slots)

module _ {S F V P : Type 0} (nil_value : V) (read_fn : Reader S F) where
  -- `readClass` into `&Class{}`: what is not read keeps Go's zero value.
  unfoldable pub read_class : Reader S (Class F V P)
  read_class = do
    name ← read_string
    is_abstract ← read_bool
    is_enum ← read_bool
    is_sealed ← read_bool
    is_record ← read_bool
    fast_constructor ← read_fast_constructor
    implements_len ← read_u32
    permits_len ← read_u32
    enum_order ← read_string_slice
    fields ← read_counted_map (read_field nil_value)
    field_order ← read_string_slice
    field_index ← read_counted_map read_index
    method_order ← read_string_slice
    method_index ← read_counted_map read_index
    method_table ← read_counted (read_method? read_fn)
    methods ← read_counted_methods read_fn
    constructor ← read_method? read_fn
    constructor_visibility ← read_string
    static_fields ← read_counted_map (read_field nil_value)
    values_len ← read_u32
    static_methods ← read_counted_methods read_fn
    method_visibility ← read_counted_map read_visibility
    static_visibility ← read_counted_map read_visibility
    special_methods ← read_counted_specials read_fn
    give (record {
      name = name;
      superclass = none;
      implements = [];
      permits = [];
      is_abstract = is_abstract;
      is_enum = is_enum;
      is_sealed = is_sealed;
      is_record = is_record;
      enum_order = enum_order;
      fields = fields;
      field_order = field_order;
      field_index = field_index;
      static_fields = static_fields;
      method_visibility = method_visibility;
      static_visibility = static_visibility;
      constructor_visibility = constructor_visibility;
      method_annotations = [];
      fast_constructor = fast_constructor;
      fast_methods = [];
      fast_static_methods = [];
      method_order = method_order;
      method_index = method_index;
      method_table = method_table;
      methods = methods;
      method_overloads = [];
      constructor = constructor;
      constructor_overloads = [];
      static_methods = static_methods;
      static_method_overloads = [];
      static_values = [];
      special_methods = special_methods;
      default_fields = [];
    })
