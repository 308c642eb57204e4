-- ===== src/Value/Class.antt =====
-- internal/value: the fields of `Class` (value.go), and the reading and writing of their parts
-- (serialize.go). Layout has `writeClass` and `readClass`.
-- The types of the functions, the values and the fast method plans are parameters, `F`, `V` and `P`.
pub mod Layout
pub mod Fields
pub mod Methods
pub mod RoundTrip
pub mod Lookup
use polyloft_bvm.Prelude.{
  ℕ, zero, suc, ◌+◌, Bool, false, List, [], ◌∷◌, Option, none, some, Text, TextMap, put, length,
  ◌==◌, if◌then◌else◌,
}
use polyloft_bvm.Binary.{
  Writer, Reader, ◌>>◌, ◌>>=◌, give, emit, write_byte, write_u32, write_bool, read_byte, read_u32,
  read_i32, read_bool, write_each, read_each,
}
use polyloft_bvm.Bytecode.Serialize.{
  write_string, read_string, write_string_slice, read_string_slice, read_map,
}

pub record FieldDef (V : Type 0) : Type 0 where
  pub default : V
  pub mutable : Bool
  pub is_final : Bool
  pub type_name : Text
  pub visibility : Text

pub record FastConstructorPlan : Type 0 where
  pub arity : ℕ
  pub field_slots : List ℕ
  pub arg_indexes : List ℕ

pub record Class (F V P : Type 0) : Type 0 where
  pub name : Text
  pub superclass : Option ℕ
  pub implements : TextMap Bool
  pub permits : TextMap Bool
  pub is_abstract : Bool
  pub is_enum : Bool
  pub is_sealed : Bool
  pub is_record : Bool
  pub enum_order : List Text
  pub fields : TextMap (FieldDef V)
  pub field_order : List Text
  pub field_index : TextMap ℕ
  pub static_fields : TextMap (FieldDef V)
  pub method_visibility : TextMap Text
  pub static_visibility : TextMap Text
  pub constructor_visibility : Text
  pub method_annotations : TextMap (List Text)
  pub fast_constructor : Option FastConstructorPlan
  pub fast_methods : List (Option P)
  pub fast_static_methods : TextMap (Option P)
  pub method_order : List Text
  pub method_index : TextMap ℕ
  pub method_table : List (Option F)
  pub methods : TextMap (Option F)
  pub method_overloads : TextMap (List (Option F))
  pub constructor : Option F
  pub constructor_overloads : List (Option F)
  pub static_methods : TextMap (Option F)
  pub static_method_overloads : TextMap (List (Option F))
  pub static_values : TextMap V
  pub special_methods : ℕ → Option F
  pub default_fields : List V

-- `specialMethodSlotOrder`; the slots are numbered by `iota`.
abbrev pub special_method_slots : List ℕ
special_method_slots = 0 ∷ 1 ∷ 2 ∷ 3 ∷ 4 ∷ 5 ∷ 6 ∷ 7 ∷ 8 ∷ 9 ∷ []

module _ {S V : Type 0} where
  unfoldable pub write_field_def : FieldDef V → Writer S
  write_field_def f = do
    write_bool f.mutable
    write_bool f.is_final
    write_string f.type_name
    write_string f.visibility

  -- A field with its name, as the loops over `Fields` and `StaticFields` write it.
  unfoldable pub write_field : Text × FieldDef V → Writer S
  write_field e = do write_string e.0; write_field_def e.1

  -- `nil_value` is Go's zero `Value`.
  unfoldable pub read_field_def : V → Reader S (FieldDef V)
  read_field_def nil_value = do
    mutable ← read_bool
    is_final ← read_bool
    type_name ← read_string
    visibility ← read_string
    give (record {
      default = nil_value;
      mutable = mutable;
      is_final = is_final;
      type_name = type_name;
      visibility = visibility;
    })

  unfoldable pub read_field : V → Reader S (Text × FieldDef V)
  read_field nil_value = do k ← read_string; f ← read_field_def nil_value; give (k, f)

module _ {S : Type 0} where
  unfoldable pub write_fast_constructor : Option FastConstructorPlan → Writer S
  write_fast_constructor none = write_byte 0
  write_fast_constructor (some p) = do
    write_byte 1
    write_u32 p.arity
    write_u32 (length p.field_slots)
    write_each write_u32 p.field_slots
    write_u32 (length p.arg_indexes)
    write_each write_u32 p.arg_indexes

  unfoldable pub read_fast_plan : Reader S FastConstructorPlan
  read_fast_plan = do
    arity ← read_i32
    slots_len ← read_u32
    slots ← read_each read_i32 slots_len
    args_len ← read_u32
    args ← read_each read_i32 args_len
    give (record { arity = arity; field_slots = slots; arg_indexes = args })

  unfoldable pub read_fast_constructor : Reader S (Option FastConstructorPlan)
  read_fast_constructor = do
    has_fast ← read_byte
    if has_fast == 1 then (read_fast_plan >>= λ p. give (some p)) else give none

  -- An entry of `FieldIndex` and `MethodIndex`.
  unfoldable pub write_index : Text × ℕ → Writer S
  write_index e = do write_string e.0; write_u32 e.1

  unfoldable pub read_index : Reader S (Text × ℕ)
  read_index = do k ← read_string; v ← read_i32; give (k, v)

  -- An entry of the visibility maps.
  unfoldable pub write_visibility : Text × Text → Writer S
  write_visibility e = do write_string e.0; write_string e.1

  unfoldable pub read_visibility : Reader S (Text × Text)
  read_visibility = do k ← read_string; v ← read_string; give (k, v)

  -- A count, and the entries of a map.
  unfoldable pub write_counted {ℓ} : {V : Type ℓ} → (V → Writer S) → List V → Writer S
  write_counted write list = do write_u32 (length list); write_each write list

  unfoldable pub read_counted {ℓ} : {V : Type ℓ} → Reader S V → Reader S (List V)
  read_counted read = do n ← read_u32; read_each read n

  unfoldable pub read_counted_map {ℓ} : {V : Type ℓ} → Reader S (Text × V) → Reader S (TextMap V)
  read_counted_map read = do n ← read_u32; read_map read n []
