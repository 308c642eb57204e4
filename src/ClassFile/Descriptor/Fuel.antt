-- ===== src/ClassFile/Descriptor/Fuel.antt =====
-- The fuel of `typeDescriptor`: the length of the name bounds the number of its "[]".
use polyloft_bvm.Prelude.{
  ℕ, zero, suc, ◌+◌, ◌≤◌, ◌<◌, ◌≡◌, refl, ap, Bool, true, false, [], ◌∷◌, none, some, Text, get?,
  same_text, length, Option-cases, inl, inr, ◌==◌, if◌then◌else◌, arith,
}
use polyloft_bvm.ClassFile.Descriptor.{
  builtin_descriptors, element_name, type_descriptor_on, type_descriptor,
}

element_name-length : (t e : Text) → element_name t ≡ some e → length e + 2 ≤ length t
unfolding element_name
element_name-length [] e q = absurd (cc)
element_name-length (a ∷ []) e q = absurd (cc)
element_name-length (a ∷ b ∷ []) e q = brackets (a == 91) (b == 93) e q
  where
    brackets :
        (x y : Bool) (e : Text)
        → (if x then (if y then some [] else none) else none) ≡ some e
        → length e + 2 ≤ length (a ∷ b ∷ [])
    brackets true true [] k = omega arith
    brackets true true (c ∷ e) k = absurd (cc)
    brackets true false e k = absurd (cc)
    brackets false y e k = absurd (cc)
element_name-length (a ∷ b ∷ c ∷ r) e q = elim (Option-cases (element_name (b ∷ c ∷ r))) [
  | inl n ↦ let bad : none ≡ some e = rw n at q in absurd (cc)
  | inr (d, n) ↦
      let same : a ∷ d ≡ e = (let k : some (a ∷ d) ≡ some e = rw n at q in cc) in
      rw (← same) (omega (arith, element_name-length (b ∷ c ∷ r) d n))
]

module _ (trim : Text → Text) (shortens : (v : Text) → length (trim v) ≤ length v) where
  -- More fuel than the length of the name changes nothing.
  type_descriptor_on-enough :
      (n m : ℕ) (v : Text)
      → length v < n
      → length v < m
      → type_descriptor_on trim n v ≡ type_descriptor_on trim m v
  unfolding type_descriptor_on get? same_text
  type_descriptor_on-enough zero m v a b = absurd (omega (arith, a))
  type_descriptor_on-enough (suc n) zero v a b = absurd (omega (arith, b))
  type_descriptor_on-enough (suc n) (suc m) v a b =
      elim (Option-cases (get? (trim v) builtin_descriptors)) [
        | inl none_found ↦ elim (Option-cases (element_name (trim v))) [
          | inl e ↦ rw (none_found, e) refl
          | inr (d, e) ↦
              let short = element_name-length (trim v) d e in
              rw (none_found, e)
                (ap (λ t. 91 ∷ t)
                  (type_descriptor_on-enough n m d (omega (arith, a, short, shortens v))
                    (omega (arith, b, short, shortens v))))
        ]
        | inr (d, found) ↦ rw found refl
      ]

  pub type_descriptor-enough :
      (n : ℕ) (v : Text) → length v < n → type_descriptor_on trim n v ≡ type_descriptor trim v
  unfolding type_descriptor
  type_descriptor-enough n v b = type_descriptor_on-enough n (suc (length v)) v b (omega arith)
