-- ===== src/Value/Class/Lookup/Slots.antt =====
-- Fields with their slots, and special methods, along the superclasses.
use polyloft_bvm.Prelude.{
  ℕ, ◌≡◌, refl, List, [], ◌∷◌, Option, none, some, Text, get?, All, ◌==◌, if◌then◌else◌, arith,
}
use polyloft_bvm.Bytecode.{Function}
use polyloft_bvm.Value.Class.{FieldDef, Class}
use polyloft_bvm.Value.Class.Lookup.{
  lookup_field, lookup_field_slot, lookup_field_owner, set_special_method, special_method,
}

module _ {K V P : Type 0} where
  -- Setting a special method is seen by the lookups of its slot in the class alone: they find the new
  -- function, or what the superclasses have if it is nil; lookups of other slots are as before.
  pub special_method-set_special_method :
      (k slot : ℕ) (fn : Option (Function K)) (c : Class (Function K) V P)
      (supers : List (Class (Function K) V P))
      → special_method k (set_special_method slot fn c ∷ supers) ≡ (
          if k == slot
          then elim fn [ some f ↦ some f | none ↦ special_method k supers ]
          else special_method k (c ∷ supers))
  unfolding special_method set_special_method
  special_method-set_special_method k slot fn c supers = ground arith

  -- The field of what LookupFieldOwner returns.
  abbrev pub field_of : Option (Class (Function K) V P × ℕ × FieldDef V) → Option (FieldDef V)
  field_of none = none
  field_of (some r) = some r.2

  -- A field of the class under the name has a slot.
  abbrev pub Indexed : Text → Class (Function K) V P → Type 0
  Indexed name c = get? name c.field_index ≡ none → get? name c.fields ≡ none

  -- LookupField and LookupFieldOwner find the same field, if each class has a slot for a field that it
  -- has under the name.
  pub lookup_field_owner-lookup_field :
      (name : Text) (chain : List (Class (Function K) V P))
      → All (Indexed name) chain
      → field_of (lookup_field_owner name chain) ≡ lookup_field name chain
  unfolding lookup_field lookup_field_owner lookup_field_slot
  lookup_field_owner-lookup_field name [] h = refl
  lookup_field_owner-lookup_field name (c ∷ supers) h =
      ground (arith, lookup_field_owner-lookup_field name supers h.1, h.0)
