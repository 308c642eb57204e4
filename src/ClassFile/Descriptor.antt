-- ===== src/ClassFile/Descriptor.antt =====
-- internal/classfile/module_codec.go: the descriptor of a method, `methodDescriptor` and
-- `parseMethodDescriptor`. A position in a descriptor is what is left of it; `strings.TrimSpace` is the
-- argument `trim`.
pub mod Parse
pub mod Fuel
use polyloft_bvm.Prelude.{
  ℕ, zero, suc, Bool, true, false, List, [], ◌∷◌, ◌++◌, Option, none, some, Text, TextMap, get?,
  length, map, ◌==◌, if◌then◌else◌,
}
use polyloft_bvm.Token.{codes}

-- The names with a descriptor of their own.
abbrev pub builtin_descriptors : TextMap Text
builtin_descriptors =
    (codes "", codes "V")
    ∷ (codes "Void", codes "V")
    ∷ (codes "void", codes "V")
    ∷ (codes "Int", codes "I")
    ∷ (codes "int", codes "I")
    ∷ (codes "Float", codes "D")
    ∷ (codes "float", codes "D")
    ∷ (codes "Number", codes "D")
    ∷ (codes "number", codes "D")
    ∷ (codes "Bool", codes "Z")
    ∷ (codes "bool", codes "Z")
    ∷ (codes "Boolean", codes "Z")
    ∷ (codes "boolean", codes "Z")
    ∷ (codes "Char", codes "C")
    ∷ (codes "char", codes "C")
    ∷ (codes "String", codes "Ljava/lang/String;")
    ∷ (codes "string", codes "Ljava/lang/String;")
    ∷ (codes "Any", codes "Lpolyloft/Any;")
    ∷ (codes "any", codes "Lpolyloft/Any;")
    ∷ (codes "Function", codes "Lpolyloft/Function;")
    ∷ (codes "Array", codes "Lpolyloft/Array;")
    ∷ (codes "array", codes "Lpolyloft/Array;")
    ∷ (codes "Map", codes "Lpolyloft/Map;")
    ∷ (codes "map", codes "Lpolyloft/Map;")
    ∷ (codes "Tuple", codes "Lpolyloft/Tuple;")
    ∷ (codes "tuple", codes "Lpolyloft/Tuple;")
    ∷ (codes "Range", codes "Lpolyloft/Range;")
    ∷ (codes "range", codes "Lpolyloft/Range;")
    ∷ (codes "Module", codes "Lpolyloft/Module;")
    ∷ (codes "module", codes "Lpolyloft/Module;")
    ∷ (codes "Nil", codes "Lpolyloft/Nil;")
    ∷ (codes "nil", codes "Lpolyloft/Nil;")
    ∷ []

-- The name without a final "[]", if it has one.
unfoldable pub element_name : Text → Option Text
element_name [] = none
element_name (a ∷ s) = elim s [
  | [] ↦ none
  | b ∷ r ↦ elim r [
    | [] ↦ if a == 91 then (if b == 93 then some [] else none) else none
    | _ ∷ _ ↦ elim (element_name s) [ none ↦ none | some e ↦ some (a ∷ e) ]
  ]
]

-- `strings.ReplaceAll` on single bytes.
abbrev pub replace_byte : ℕ → ℕ → Text → Text
replace_byte old new v = map (λ c. if c == old then new else c) v

module _ (trim : Text → Text) where
  unfoldable pub to_internal_name : Text → Text
  to_internal_name name = elim (trim name) [
    | [] ↦ codes "polyloft/Any"
    | c ∷ s ↦ replace_byte 46 47 (c ∷ s)
  ]

  -- The cases on a trimmed name; `element` is the descriptor of the elements of an array.
  abbrev pub descriptor_of : (Text → Text) → Text → Text
  descriptor_of element t = elim (get? t builtin_descriptors) [
    | some d ↦ d
    | none ↦ elim (element_name t) [
      | some e ↦ 91 ∷ element e
      | none ↦ 76 ∷ to_internal_name t ++ 59 ∷ []
    ]
  ]

  -- On fuel for the number of "[]", which the length of the name bounds; out of fuel it is "V".
  unfoldable pub type_descriptor_on : ℕ → Text → Text
  type_descriptor_on zero name = codes "V"
  type_descriptor_on (suc n) name = descriptor_of (type_descriptor_on n) (trim name)

  unfoldable pub type_descriptor : Text → Text
  type_descriptor name = type_descriptor_on (suc (length name)) name

  unfoldable pub type_descriptors : List Text → Text
  type_descriptors [] = []
  type_descriptors (p ∷ ps) = type_descriptor p ++ type_descriptors ps

  unfoldable pub method_descriptor : List Text → Text → Text
  method_descriptor params ret = 40 ∷ type_descriptors params ++ 41 ∷ type_descriptor ret

-- The class names with a type of their own.
abbrev pub builtin_classes : TextMap Text
builtin_classes =
    (codes "java/lang/String", codes "String")
    ∷ (codes "polyloft/Any", codes "Any")
    ∷ (codes "polyloft/Function", codes "Function")
    ∷ (codes "polyloft/Array", codes "Array")
    ∷ (codes "polyloft/Map", codes "Map")
    ∷ (codes "polyloft/Tuple", codes "Tuple")
    ∷ (codes "polyloft/Range", codes "Range")
    ∷ (codes "polyloft/Module", codes "Module")
    ∷ (codes "polyloft/Nil", codes "Nil")
    ∷ []

abbrev pub class_name : Text → Text
class_name name = elim (get? name builtin_classes) [ some t ↦ t | none ↦ replace_byte 47 46 name ]

-- The text before the first ';', and the text after it.
unfoldable pub split_at_semicolon : Text → Option (Text × Text)
split_at_semicolon [] = none
split_at_semicolon (c ∷ s) =
    let rest = split_at_semicolon s in
    if c == 59 then some ([], s) else (elim rest [ none ↦ none | some (v, r) ↦ some (c ∷ v, r) ])

-- `parseTypeDescriptor`: the type and what is left.
unfoldable pub parse_type : Text → Text × Text
parse_type [] = ([], [])
parse_type (c ∷ s) =
    let inner = parse_type s in
    if c == 86
    then (codes "Void", s)
    else if c == 73
    then (codes "Int", s)
    else if c == 68
    then (codes "Float", s)
    else if c == 90
    then (codes "Bool", s)
    else if c == 67
    then (codes "Char", s)
    else if c == 91
    then (inner.0 ++ codes "[]", inner.1)
    else if c == 76
    then (elim (split_at_semicolon s) [
      | none ↦ (codes "Any", [])
      | some (name, rest) ↦ (class_name name, rest)
    ])
    else (codes "Any", s)

-- The loop over the parameters, on fuel; each takes at least one byte.
unfoldable pub parse_params : ℕ → Text → List Text × Text
parse_params zero d = ([], d)
parse_params (suc n) [] = ([], [])
parse_params (suc n) (c ∷ s) =
    if c == 41
    then ([], c ∷ s)
    else (let t = parse_type (c ∷ s) in let ps = parse_params n t.1 in (t.0 ∷ ps.0, ps.1))

-- The result type after the parameters, or none at the end.
abbrev pub parse_return : Text → Text
parse_return [] = []
parse_return (c ∷ s) = (parse_type s).0

unfoldable pub parse_method_descriptor : Text → List Text × Text
parse_method_descriptor [] = ([], [])
parse_method_descriptor (c ∷ s) =
    if c == 40
    then (let ps = parse_params (suc (length s)) s in (ps.0, parse_return ps.1))
    else ([], [])
