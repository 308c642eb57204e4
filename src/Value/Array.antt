-- ===== src/Value/Array.antt =====
-- internal/value/value.go: `Array` with its dense storage. `none` is a panic, an index out of range.
pub mod Refines
use polyloft_bvm.Prelude.{
  ℕ, Bool, true, false, ◌&&◌, List, [], ◌∷◌, ◌++◌, Option, none, some, map, length, get_elem?, set,
  replicate, ltb, if◌then◌else◌,
}
use polyloft_bvm.Value.{
  Float64, NumberKind, Kind, Value, int_value, float_value, bool_value, is_number, is_int, is_bool,
}
use mathlib.Core.Option

pub data ArrayKind : Type 0 where
  arr_any arr_int arr_float arr_bool : ArrayKind

pub record Array (F O : Type 0) : Type 0 where
  pub elems : List (Value F O)
  pub ints : List ℕ
  pub floats : List F
  pub bools : List Bool
  pub a_kind : ArrayKind

-- A write in range; out of range Go panics.
abbrev pub write {ℓ} : {A : Type ℓ} → List A → ℕ → A → Option (List A)
write xs i v = if ltb i (length xs) then some (set xs i v) else none

module _ (fl : Float64) {O : Type 0} where
  unfoldable pub new_array : List (Value fl.F O) → Array fl.F O
  new_array elems = record { elems = elems; ints = []; floats = []; bools = []; a_kind = arr_any }

  -- `NewIntArrayFill`, `NewFloatArrayFill` and `NewBoolArray`.
  unfoldable pub new_int_array : ℕ → ℕ → Array fl.F O
  new_int_array n fill = record {
    elems = [];
    ints = replicate n fill;
    floats = [];
    bools = [];
    a_kind = arr_int;
  }

  unfoldable pub new_float_array : ℕ → fl.F → Array fl.F O
  new_float_array n fill = record {
    elems = [];
    ints = [];
    floats = replicate n fill;
    bools = [];
    a_kind = arr_float;
  }

  unfoldable pub new_bool_array : ℕ → Bool → Array fl.F O
  new_bool_array n fill = record {
    elems = [];
    ints = [];
    floats = [];
    bools = replicate n fill;
    a_kind = arr_bool;
  }

  -- `Len`.
  unfoldable pub len : Array fl.F O → ℕ
  len a = elim a.a_kind [
    | arr_int ↦ length a.ints
    | arr_float ↦ length a.floats
    | arr_bool ↦ length a.bools
    | arr_any ↦ length a.elems
  ]

  -- `At`.
  unfoldable pub at : Array fl.F O → ℕ → Option (Value fl.F O)
  at a i = elim a.a_kind [
    | arr_int ↦ Option.map (int_value fl) (get_elem? a.ints i)
    | arr_float ↦ Option.map (float_value fl) (get_elem? a.floats i)
    | arr_bool ↦ Option.map (bool_value fl) (get_elem? a.bools i)
    | arr_any ↦ get_elem? a.elems i
  ]

  unfoldable pub materialize : Array fl.F O → Array fl.F O
  materialize a = elim a.a_kind [
    | arr_int ↦ record a { elems = map (int_value fl) a.ints; ints = []; a_kind = arr_any }
    | arr_float ↦ record a { elems = map (float_value fl) a.floats; floats = []; a_kind = arr_any }
    | arr_bool ↦ record a { elems = map (bool_value fl) a.bools; bools = []; a_kind = arr_any }
    | arr_any ↦ a
  ]

  -- `Values`: the list, and the array that it leaves.
  unfoldable pub values : Array fl.F O → List (Value fl.F O) × Array fl.F O
  values a = let b = materialize a in (b.elems, b)

  -- The write into `[]Value` storage.
  unfoldable pub set_elem : Array fl.F O → ℕ → Value fl.F O → Option (Array fl.F O)
  set_elem a i v = Option.map (λ es. record a { elems = es }) (write a.elems i v)

  -- `SetAt`.
  unfoldable pub set_at : Array fl.F O → ℕ → Value fl.F O → Option (Array fl.F O)
  set_at a i v = elim a.a_kind [
    | arr_int ↦
        if is_number v && is_int v
        then Option.map (λ ns. record a { ints = ns }) (write a.ints i v.int)
        else set_elem (materialize a) i v
    | arr_float ↦
        if is_number v
        then Option.map (λ fs. record a { floats = fs }) (write a.floats i v.num)
        else set_elem (materialize a) i v
    | arr_bool ↦
        if is_bool v
        then Option.map (λ bs. record a { bools = bs }) (write a.bools i v.bool)
        else set_elem (materialize a) i v
    | arr_any ↦ set_elem a i v
  ]

  unfoldable pub append_elem : Array fl.F O → Value fl.F O → Array fl.F O
  append_elem a v = record a { elems = a.elems ++ v ∷ [] }

  -- `Append`.
  unfoldable pub append : Array fl.F O → Value fl.F O → Array fl.F O
  append a v = elim a.a_kind [
    | arr_int ↦
        if is_number v && is_int v
        then record a { ints = a.ints ++ v.int ∷ [] }
        else append_elem (materialize a) v
    | arr_float ↦
        if is_number v
        then record a { floats = a.floats ++ v.num ∷ [] }
        else append_elem (materialize a) v
    | arr_bool ↦
        if is_bool v
        then record a { bools = a.bools ++ v.bool ∷ [] }
        else append_elem (materialize a) v
    | arr_any ↦ append_elem a v
  ]
