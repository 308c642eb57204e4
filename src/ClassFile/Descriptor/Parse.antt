-- ===== src/ClassFile/Descriptor/Parse.antt =====
-- The parameters that `parseMethodDescriptor` finds in a descriptor.
use polyloft_bvm.Prelude.{
  ℕ, zero, suc, ◌+◌, ◌≤◌, ◌≡◌, ◌≢◌, refl, sym, ap, ◌∙◌, List, [], ◌∷◌, ◌++◌, append_assoc,
  append-nil, Bool, true, false, none, some, Text, TextMap, get?, same_text, length, length-append,
  map, All, ◌==◌, if◌then◌else◌, if_case, Option-cases, inl, inr, arith,
}
use polyloft_bvm.Token.{codes}
use polyloft_bvm.ClassFile.Descriptor.{
  builtin_descriptors, element_name, replace_byte, to_internal_name, descriptor_of,
  type_descriptor_on, type_descriptor, type_descriptors, method_descriptor, class_name,
  split_at_semicolon, parse_type, parse_params, parse_method_descriptor,
}

-- A name without a semicolon.
abbrev pub NoSemicolon : Text → Type 0
NoSemicolon v = All (λ c. c ≢ 59) v

-- A text that is read as one type, whatever follows, and does not begin with a parenthesis.
record IsDescriptor (d : Text) : Type 0 where
  name : Text
  reads : (s : Text) → parse_type (d ++ s) ≡ (name, s)
  head : ℕ
  tail : Text
  begins : d ≡ head ∷ tail
  is_type : (head == 41) ≡ false

split-append : (v s : Text) → NoSemicolon v → split_at_semicolon (v ++ 59 ∷ s) ≡ some (v, s)
unfolding split_at_semicolon
split-append [] s h = refl
split-append (c ∷ v) s h =
    let other : (c == 59) ≡ false = ground (arith, h.0) in rw (other, split-append v s h.1) refl

class-IsDescriptor : (v : Text) → NoSemicolon v → IsDescriptor (76 ∷ v ++ 59 ∷ [])
unfolding parse_type
class-IsDescriptor v h = record {
  name = class_name v;
  reads = λ s. rw (append_assoc v (59 ∷ []) s, split-append v s h) refl;
  head = 76;
  tail = v ++ 59 ∷ [];
  begins = refl;
  is_type = refl;
}

array-IsDescriptor : (d : Text) → IsDescriptor d → IsDescriptor (91 ∷ d)
unfolding parse_type
array-IsDescriptor d i = record {
  name = i.name ++ codes "[]";
  reads = λ s. rw (i.reads s) refl;
  head = 91;
  tail = d;
  begins = refl;
  is_type = refl;
}

letter :
    (c : ℕ) (name : Text)
    → ((s : Text) → parse_type (c ∷ s) ≡ (name, s))
    → (c == 41) ≡ false
    → IsDescriptor (c ∷ [])
letter c name r f = record {
  name = name;
  reads = r;
  head = c;
  tail = [];
  begins = refl;
  is_type = f;
}

get?-All :
    (P : Text → Type 0) (k d : Text) (m : TextMap Text)
    → All (λ e. P e.1) m
    → get? k m ≡ some d
    → P d
unfolding get?
get?-All P k d [] h = λ e. absurd (cc)
get?-All P k d (e ∷ m) h =
    if_case (λ o. o ≡ some d → P d) (same_text e.0 k)
      (λ t q. let same : e.1 ≡ d = cc in rw (← same) h.0) (λ f q. get?-All P k d m h.1 q)

element_name-NoSemicolon : (t e : Text) → element_name t ≡ some e → NoSemicolon t → NoSemicolon e
unfolding element_name
element_name-NoSemicolon [] e q h = absurd (cc)
element_name-NoSemicolon (a ∷ []) e q h = absurd (cc)
element_name-NoSemicolon (a ∷ b ∷ []) e q h = brackets (a == 91) (b == 93) e q
  where
    brackets :
        (x y : Bool) (e : Text)
        → (if x then (if y then some [] else none) else none) ≡ some e
        → NoSemicolon e
    brackets true true [] k = tt
    brackets true true (c ∷ e) k = absurd (cc)
    brackets true false e k = absurd (cc)
    brackets false y e k = absurd (cc)
element_name-NoSemicolon (a ∷ b ∷ c ∷ r) e q h = elim (Option-cases (element_name (b ∷ c ∷ r))) [
  | inl n ↦ let bad : none ≡ some e = rw n at q in absurd (cc)
  | inr (d, n) ↦
      let same : a ∷ d ≡ e = (let k : some (a ∷ d) ≡ some e = rw n at q in cc) in
      rw (← same) (h.0, element_name-NoSemicolon (b ∷ c ∷ r) d n h.1)
]

replace-NoSemicolon : (v : Text) → NoSemicolon v → NoSemicolon (replace_byte 46 47 v)
replace-NoSemicolon [] h = tt
replace-NoSemicolon (c ∷ v) h =
    (if_case (λ x. x ≢ 59) (c == 46) (λ t. omega arith) (λ f. h.0), replace-NoSemicolon v h.1)

literal :
    (t name : Text) → ((s : Text) → parse_type (76 ∷ t ++ s) ≡ (name, s)) → IsDescriptor (76 ∷ t)
literal t name r = record {
  name = name;
  reads = r;
  head = 76;
  tail = t;
  begins = refl;
  is_type = refl;
}

builtins-IsDescriptor : All (λ e. IsDescriptor e.1) builtin_descriptors
unfolding parse_type split_at_semicolon
builtins-IsDescriptor =
    let void = letter 86 (codes "Void") (λ s. refl) refl in
    let int = letter 73 (codes "Int") (λ s. refl) refl in
    let float = letter 68 (codes "Float") (λ s. refl) refl in
    let bool = letter 90 (codes "Bool") (λ s. refl) refl in
    let char = letter 67 (codes "Char") (λ s. refl) refl in
    let string =
      literal (codes "java/lang/String;") (class_name (codes "java/lang/String")) (λ s. refl) in
    let any = literal (codes "polyloft/Any;") (class_name (codes "polyloft/Any")) (λ s. refl) in
    let callable =
      literal (codes "polyloft/Function;") (class_name (codes "polyloft/Function")) (λ s. refl) in
    let arrays =
      literal (codes "polyloft/Array;") (class_name (codes "polyloft/Array")) (λ s. refl) in
    let maps = literal (codes "polyloft/Map;") (class_name (codes "polyloft/Map")) (λ s. refl) in
    let tuples =
      literal (codes "polyloft/Tuple;") (class_name (codes "polyloft/Tuple")) (λ s. refl) in
    let ranges =
      literal (codes "polyloft/Range;") (class_name (codes "polyloft/Range")) (λ s. refl) in
    let modules =
      literal (codes "polyloft/Module;") (class_name (codes "polyloft/Module")) (λ s. refl) in
    let nils = literal (codes "polyloft/Nil;") (class_name (codes "polyloft/Nil")) (λ s. refl) in
    (
      void,
      (
        void,
        (
          void,
          (
            int,
            (
              int,
              (
                float,
                (
                  float,
                  (
                    float,
                    (
                      float,
                      (
                        bool,
                        (
                          bool,
                          (
                            bool,
                            (
                              bool,
                              (
                                char,
                                (
                                  char,
                                  (
                                    string,
                                    (
                                      string,
                                      (
                                        any,
                                        (
                                          any,
                                          (
                                            callable,
                                            (
                                              arrays,
                                              (
                                                arrays,
                                                (
                                                  maps,
                                                  (
                                                    maps,
                                                    (
                                                      tuples,
                                                      (
                                                        tuples,
                                                        (
                                                          ranges,
                                                          (
                                                            ranges,
                                                            (
                                                            modules,
                                                            (modules, (nils, (nils, tt))),
                                                            ),
                                                          ),
                                                        ),
                                                      ),
                                                    ),
                                                  ),
                                                ),
                                              ),
                                            ),
                                          ),
                                        ),
                                      ),
                                    ),
                                  ),
                                ),
                              ),
                            ),
                          ),
                        ),
                      ),
                    ),
                  ),
                ),
              ),
            ),
          ),
        ),
      ),
    )

module _ (trim : Text → Text) (trims : (v : Text) → NoSemicolon v → NoSemicolon (trim v)) where
  internal_name-NoSemicolon : (v : Text) → NoSemicolon v → NoSemicolon (to_internal_name trim v)
  unfolding to_internal_name
  internal_name-NoSemicolon v h = replaced (trim v) (trims v h)
    where
      replaced :
          (w : Text)
          → NoSemicolon w
          → NoSemicolon (elim w [ [] ↦ codes "polyloft/Any" | c ∷ s ↦ replace_byte 46 47 (c ∷ s) ])
      replaced [] k = (
        omega arith,
        (
          omega arith,
          (
            omega arith,
            (
              omega arith,
              (
                omega arith,
                (
                  omega arith,
                  (
                    omega arith,
                    (omega arith, (omega arith, (omega arith, (omega arith, (omega arith, tt))))),
                  ),
                ),
              ),
            ),
          ),
        ),
      )
      replaced (c ∷ w) k = replace-NoSemicolon (c ∷ w) k

  descriptor_of-IsDescriptor :
      (element : Text → Text) (t : Text)
      → NoSemicolon t
      → ((e : Text) → NoSemicolon e → IsDescriptor (element e))
      → IsDescriptor (descriptor_of trim element t)
  unfolding get? same_text
  descriptor_of-IsDescriptor element t h i = elim (Option-cases (get? t builtin_descriptors)) [
    | inl n ↦ elim (Option-cases (element_name t)) [
      | inl m ↦
          rw (n, m) (class-IsDescriptor (to_internal_name trim t) (internal_name-NoSemicolon t h))
      | inr (e, m) ↦
          rw (n, m) (array-IsDescriptor (element e) (i e (element_name-NoSemicolon t e m h)))
    ]
    | inr (d, n) ↦ rw n (get?-All IsDescriptor t d builtin_descriptors builtins-IsDescriptor n)
  ]

  type_descriptor_on-IsDescriptor :
      (n : ℕ) (v : Text) → NoSemicolon v → IsDescriptor (type_descriptor_on trim n v)
  unfolding type_descriptor_on parse_type
  type_descriptor_on-IsDescriptor zero v h = letter 86 (codes "Void") (λ s. refl) refl
  type_descriptor_on-IsDescriptor (suc n) v h =
      descriptor_of-IsDescriptor (type_descriptor_on trim n) (trim v) (trims v h)
        (λ e k. type_descriptor_on-IsDescriptor n e k)

  type_descriptor-IsDescriptor : (v : Text) → NoSemicolon v → IsDescriptor (type_descriptor trim v)
  unfolding type_descriptor
  type_descriptor-IsDescriptor v h = type_descriptor_on-IsDescriptor (suc (length v)) v h

  -- The type that is read back of a name.
  abbrev pub read_back : Text → Text
  read_back v = (parse_type (type_descriptor trim v)).0

  params_step :
      (n : ℕ) (d s : Text) (i : IsDescriptor d)
      → parse_params (suc n) (d ++ s) ≡ (i.name ∷ (parse_params n s).0, (parse_params n s).1)
  unfolding parse_params
  params_step n [] s i = absurd (let b = i.begins in cc)
  params_step n (c ∷ t) s i =
      let b = i.begins in
      let same : i.head ≡ c = cc in
      let is_type : (c == 41) ≡ false = rw (← same) i.is_type in rw (is_type, i.reads s) refl

  read_back_name :
      (v : Text) (h : NoSemicolon v) → (type_descriptor-IsDescriptor v h).name ≡ read_back v
  read_back_name v h =
      let i = type_descriptor-IsDescriptor v h in
      sym (ap (λ x. x.0) (ap parse_type (sym (append-nil (type_descriptor trim v))) ∙ i.reads []))

  params_parsed :
      (ps : List Text) (n : ℕ) (s : Text)
      → All NoSemicolon ps
      → length ps + 1 ≤ n
      → parse_params n (type_descriptors trim ps ++ 41 ∷ s) ≡ (map read_back ps, 41 ∷ s)
  unfolding type_descriptors parse_params
  params_parsed ps zero s h b = absurd (omega (arith, b))
  params_parsed [] (suc n) s h b = refl
  params_parsed (p ∷ ps) (suc n) s h b =
      let d = type_descriptor trim p in
      let i = type_descriptor-IsDescriptor p h.0 in
      ap (parse_params (suc n)) (append_assoc d (type_descriptors trim ps) (41 ∷ s))
      ∙ params_step n d (type_descriptors trim ps ++ 41 ∷ s) i
      ∙ rw (params_parsed ps n s h.1 (omega (arith, b)), read_back_name p h.0) refl

  descriptors_length :
      (ps : List Text) → All NoSemicolon ps → length ps ≤ length (type_descriptors trim ps)
  unfolding type_descriptors
  descriptors_length [] h = omega arith
  descriptors_length (p ∷ ps) h =
      let i = type_descriptor-IsDescriptor p h.0 in
      let one : length (type_descriptor trim p) ≡ suc (length i.tail) = ap length i.begins in
      omega (
        arith,
        one,
        descriptors_length ps h.1,
        length-append (type_descriptor trim p) (type_descriptors trim ps),
      )

  -- `parseMethodDescriptor` finds in the descriptor of a method one type for each parameter and the type of
  -- the result, each the type that `parseTypeDescriptor` reads of its own descriptor, if no name has a
  -- semicolon.
  pub parse_method_descriptor-method_descriptor :
      (params : List Text) (ret : Text)
      → All NoSemicolon params
      → parse_method_descriptor (method_descriptor trim params ret)
        ≡ (map read_back params, read_back ret)
  unfolding parse_method_descriptor method_descriptor
  parse_method_descriptor-method_descriptor params ret h =
      let text = type_descriptors trim params ++ 41 ∷ type_descriptor trim ret in
      let enough : length params + 1 ≤ suc (length text) = omega (
        arith,
        descriptors_length params h,
        length-append (type_descriptors trim params) (41 ∷ type_descriptor trim ret),
      ) in
      rw (params_parsed params (suc (length text)) (type_descriptor trim ret) h enough) refl
