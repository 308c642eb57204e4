-- ===== src/Tests/Lookups.antt =====
-- Lookups in a class with a superclass.
use polyloft_bvm.Prelude.{
  ℕ, true, false, List, [], ◌∷◌, Option, none, some, ◌≡◌, refl, TextMap, get?, same_text, ◌==◌,
  if◌then◌else◌,
}
use polyloft_bvm.Token.{codes}
use polyloft_bvm.Bytecode.{Function}
use polyloft_bvm.Value.Class.{Class}
use polyloft_bvm.Value.Class.Lookup.{
  lookup_method_by_arity, own_method_by_arity, first_of_arity, own_method, first_overload,
  lookup_method, lookup_field, lookup_field_owner, set_special_method, special_method,
}
use polyloft_bvm.Value.Class.Lookup.Nearest.{
  Resolved, lookup_method_by_arity-Resolved, lookup_method-lookup_method_by_arity,
}
use polyloft_bvm.Value.Class.Lookup.Slots.{
  special_method-set_special_method, Indexed, field_of, lookup_field_owner-lookup_field,
}

abbrev function_of : ℕ → Function ℕ
function_of arity = record {
  name = codes "f";
  arity = arity;
  param_types = [];
  owner_class_name = [];
  upvalues = [];
  return_type = [];
  max_locals = arity;
  global_slot_count = 0;
  global_slot_names = [];
  interfaces = [];
  chunk = none;
}

abbrev class_of :
    TextMap (Option (Function ℕ)) → TextMap (List (Option (Function ℕ))) → Class (Function ℕ) ℕ ℕ
class_of methods overloads = record {
  name = codes "C";
  superclass = none;
  implements = [];
  permits = [];
  is_abstract = false;
  is_enum = false;
  is_sealed = false;
  is_record = false;
  enum_order = [];
  fields =
      (
        codes "x",
        record {
          default = 9;
          mutable = true;
          is_final = false;
          type_name = codes "Int";
          visibility = codes "public";
        },
      )
      ∷ [];
  field_order = codes "x" ∷ [];
  field_index = (codes "x", 0) ∷ [];
  static_fields = [];
  method_visibility = [];
  static_visibility = [];
  constructor_visibility = codes "public";
  method_annotations = [];
  fast_constructor = none;
  fast_methods = [];
  fast_static_methods = [];
  method_order = [];
  method_index = [];
  method_table = [];
  methods = methods;
  method_overloads = overloads;
  constructor = none;
  constructor_overloads = [];
  static_methods = [];
  static_method_overloads = [];
  static_values = [];
  special_methods = λ slot. none;
  default_fields = [];
}

-- The superclass overloads `f`, which the class overrides with two parameters.
abbrev child : Class (Function ℕ) ℕ ℕ
child = class_of ((codes "f", some (function_of 2)) ∷ []) []

abbrev parent : Class (Function ℕ) ℕ ℕ
parent = class_of [] ((codes "f", none ∷ some (function_of 2) ∷ some (function_of 1) ∷ []) ∷ [])

found_in_parent :
    lookup_method_by_arity (codes "f") 1 (child ∷ parent ∷ []) ≡ some (function_of 1, parent)
unfolding lookup_method_by_arity own_method_by_arity first_of_arity get? same_text
found_in_parent = refl

lookup_method_by_arity-Resolved_example :
    Resolved
      (codes "f")
      1
      (child ∷ parent ∷ [])
      (lookup_method_by_arity (codes "f") 1 (child ∷ parent ∷ []))
lookup_method_by_arity-Resolved_example =
    lookup_method_by_arity-Resolved (codes "f") 1 (child ∷ parent ∷ [])

no_g : lookup_method (codes "g") (child ∷ parent ∷ []) ≡ none
unfolding lookup_method own_method get? same_text first_overload
no_g = refl

lookup_method-lookup_method_by_arity_example :
    lookup_method_by_arity (codes "g") 1 (child ∷ parent ∷ []) ≡ none
lookup_method-lookup_method_by_arity_example =
    lookup_method-lookup_method_by_arity (codes "g") 1 (child ∷ parent ∷ []) no_g

special_method-set_special_method_example :
    special_method 3 (set_special_method 3 none child ∷ parent ∷ [])
    ≡ (if 3 == 3 then special_method 3 (parent ∷ []) else special_method 3 (child ∷ parent ∷ []))
special_method-set_special_method_example =
    special_method-set_special_method 3 3 none child (parent ∷ [])

child-Indexed : Indexed (codes "x") child
unfolding get? same_text
child-Indexed e = absurd (cc)

parent-Indexed : Indexed (codes "x") parent
unfolding get? same_text
parent-Indexed e = absurd (cc)

lookup_field_owner-lookup_field_example :
    field_of (lookup_field_owner (codes "x") (child ∷ parent ∷ []))
    ≡ lookup_field (codes "x") (child ∷ parent ∷ [])
lookup_field_owner-lookup_field_example =
    lookup_field_owner-lookup_field (codes "x") (child ∷ parent ∷ [])
      (child-Indexed, (parent-Indexed, tt))
