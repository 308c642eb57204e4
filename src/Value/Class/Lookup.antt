-- ===== src/Value/Class/Lookup.antt =====
-- internal/value/value.go: the lookups of `Class` along its superclasses, on the list of a class and its
-- superclasses, the nearest first.
pub mod Nearest
pub mod Slots
use polyloft_bvm.Prelude.{
  ℕ, List, [], ◌∷◌, Option, none, some, Text, TextMap, get?, ◌==◌, if◌then◌else◌,
}
use polyloft_bvm.Bytecode.{Function}
use polyloft_bvm.Value.Class.{FieldDef, Class}

-- The loop over overloads.
unfoldable pub first_of_arity : {K : Type 0} → ℕ → List (Option (Function K)) → Option (Function K)
first_of_arity argc [] = none
first_of_arity argc (none ∷ fs) = first_of_arity argc fs
first_of_arity argc (some f ∷ fs) = if f.arity == argc then some f else first_of_arity argc fs

unfoldable pub first_overload : {K : Type 0} → List (Option (Function K)) → Option (Function K)
first_overload [] = none
first_overload (none ∷ fs) = first_overload fs
first_overload (some f ∷ fs) = some f

-- Ranging over a missing entry, which is nil, does nothing.
abbrev pub ranged {ℓ} : {A : Type ℓ} → Option (List A) → List A
ranged none = []
ranged (some xs) = xs

abbrev pub method_of_arity : {K : Type 0} → ℕ → Option (Option (Function K)) → Option (Function K)
method_of_arity argc none = none
method_of_arity argc (some none) = none
method_of_arity argc (some (some f)) = if f.arity == argc then some f else none

module _ {K V P : Type 0} where
  -- One class of `LookupMethodByArity`.
  unfoldable pub own_method_by_arity : Text → ℕ → Class (Function K) V P → Option (Function K)
  own_method_by_arity name argc c =
      elim (first_of_arity argc (ranged (get? name c.method_overloads))) [
        | some f ↦ some f
        | none ↦ method_of_arity argc (get? name c.methods)
      ]

  unfoldable pub lookup_method_by_arity :
      Text → ℕ → List (Class (Function K) V P) → Option (Function K × Class (Function K) V P)
  lookup_method_by_arity name argc [] = none
  lookup_method_by_arity name argc (c ∷ supers) = elim (own_method_by_arity name argc c) [
    | some f ↦ some (f, c)
    | none ↦ lookup_method_by_arity name argc supers
  ]

  -- One class of `LookupMethod`; a method of the map may be nil.
  unfoldable pub own_method : Text → Class (Function K) V P → Option (Option (Function K))
  own_method name c = elim (get? name c.methods) [
    | some m ↦ some m
    | none ↦ elim (first_overload (ranged (get? name c.method_overloads))) [
      | some f ↦ some (some f)
      | none ↦ none
    ]
  ]

  unfoldable pub lookup_method :
      Text → List (Class (Function K) V P) → Option (Option (Function K) × Class (Function K) V P)
  lookup_method name [] = none
  lookup_method name (c ∷ supers) = elim (own_method name c) [
    | some m ↦ some (m, c)
    | none ↦ lookup_method name supers
  ]

  unfoldable pub lookup_field : Text → List (Class (Function K) V P) → Option (FieldDef V)
  lookup_field name [] = none
  lookup_field name (c ∷ supers) = elim (get? name c.fields) [
    | some field ↦ some field
    | none ↦ lookup_field name supers
  ]

  unfoldable pub lookup_field_slot : Text → Class (Function K) V P → Option (ℕ × FieldDef V)
  lookup_field_slot name c = elim (get? name c.field_index) [
    | none ↦ none
    | some idx ↦ elim (get? name c.fields) [ none ↦ none | some field ↦ some (idx, field) ]
  ]

  unfoldable pub lookup_field_owner :
      Text → List (Class (Function K) V P) → Option (Class (Function K) V P × ℕ × FieldDef V)
  lookup_field_owner name [] = none
  lookup_field_owner name (c ∷ supers) = elim (lookup_field_slot name c) [
    | some r ↦ some (c, r.0, r.1)
    | none ↦ lookup_field_owner name supers
  ]

  -- A nil function deletes the entry.
  unfoldable pub set_special_method :
      ℕ → Option (Function K) → Class (Function K) V P → Class (Function K) V P
  set_special_method slot fn c = record c {
    special_methods = λ k. if k == slot then fn else c.special_methods k;
  }

  unfoldable pub special_method : ℕ → List (Class (Function K) V P) → Option (Function K)
  special_method slot [] = none
  special_method slot (c ∷ supers) = elim (c.special_methods slot) [
    | some fn ↦ some fn
    | none ↦ special_method slot supers
  ]
