-- ===== src/Compiler/Scope/Upvalues.antt =====
-- What an upvalue stands for, and that its resolution finds the nearest enclosing local of the name.
use polyloft_bvm.Prelude.{
  ℕ, suc, ◌+◌, ◌%◌, ◌<◌, ◌≡◌, refl, ap, ◌∙◌, Bool, true, false, ◌&&◌, List, [], ◌∷◌, ◌++◌, Option,
  none, some, Option-cases, inl, inr, Text, length, get_elem?, get_elem?-end, All, ◌==◌,
  if◌then◌else◌, if_case, arith,
}
use mathlib.Core.Option
use polyloft_bvm.Compiler.Scope.{
  Local, UpvalueRef, Scope, same_flag, resolve_local, find_upvalue, add_upvalue, add_to, add_outer,
  resolve_upvalue_from,
}

same_flag_eq : (a b : Bool) → same_flag a b ≡ true → a ≡ b
same_flag_eq true b h = cc
same_flag_eq false true h = absurd (cc)
same_flag_eq false false h = refl

and_right : (a b : Bool) → (a && b) ≡ true → b ≡ true
and_right true b h = h
and_right false b h = absurd (cc)

module _ {V : Type 0} where
  -- The local that an upvalue of the innermost function stands for: how many functions out it is, and its
  -- slot there.
  unfoldable pub captured : List (Scope V) → ℕ → Option (ℕ × ℕ)
  captured [] i = none
  captured (s ∷ rest) i = elim (get_elem? s.upvalues i) [
    | none ↦ none
    | some u ↦
        if u.is_local
        then some (1, u.index)
        else Option.map (λ r. (suc r.0, r.1)) (captured rest u.index)
  ]

  -- The last local of the name in the nearest of some functions that has one.
  unfoldable pub nearest : List (Scope V) → Text → Option (ℕ × Local V)
  nearest [] name = none
  nearest (p ∷ ps) name = elim (resolve_local p.locals name) [
    | some l ↦ some (1, l)
    | none ↦ Option.map (λ r. (suc r.0, r.1)) (nearest ps name)
  ]

  abbrev pub outer : List (Scope V) → List (Scope V)
  outer [] = []
  outer (s ∷ ps) = ps

  abbrev HasRef : List (UpvalueRef V) → ℕ → ℕ → Bool → Type 0
  HasRef us i slot is_local =
      (u : UpvalueRef V) × (get_elem? us i ≡ some u) × (u.index ≡ slot) × (u.is_local ≡ is_local)

  both_index :
      (u : UpvalueRef V) (slot : ℕ) (is_local : Bool)
      → ((u.index == slot) && same_flag u.is_local is_local) ≡ true
      → u.index ≡ slot
  both_index u slot is_local t = ground arith

  both_flag :
      (u : UpvalueRef V) (slot : ℕ) (is_local : Bool)
      → ((u.index == slot) && same_flag u.is_local is_local) ≡ true
      → u.is_local ≡ is_local
  both_flag u slot is_local t =
      same_flag_eq u.is_local is_local
        (and_right (u.index == slot) (same_flag u.is_local is_local) t)

  find_upvalue-HasRef :
      (us : List (UpvalueRef V)) (k slot : ℕ) (is_local : Bool) (i : ℕ)
      → find_upvalue us k slot is_local ≡ some i
      → (j : ℕ) × (i ≡ k + j) × (j < length us) × HasRef us j slot is_local
  unfolding find_upvalue
  find_upvalue-HasRef [] k slot is_local i = λ e. absurd (cc)
  find_upvalue-HasRef (u ∷ us) k slot is_local i =
      if_case
        (λ o.
          o ≡ some i
          → (j : ℕ) × (i ≡ k + j) × (j < length (u ∷ us)) × HasRef (u ∷ us) j slot is_local)
        ((u.index == slot) && same_flag u.is_local is_local)
        (λ t e. (
          0,
          (let q : k ≡ i = cc in omega (arith, q)),
          omega arith,
          (u, refl, both_index u slot is_local t, both_flag u slot is_local t),
        ))
        (λ f e.
          let (j, p, q, h) = find_upvalue-HasRef us (suc k) slot is_local i e in
          (suc j, omega (arith, p), omega (arith, q), h))

  abbrev new_ref : ℕ → Bool → Local V → UpvalueRef V
  new_ref slot is_local l = record {
    index = slot;
    is_local = is_local;
    typ = l.typ;
    inline_const = l.inline_const;
    const_value = l.const_value;
  }

  add_upvalue_found :
      (s : Scope V) (slot : ℕ) (is_local : Bool) (l : Local V) (i : ℕ)
      → find_upvalue s.upvalues 0 slot is_local ≡ some i
      → add_upvalue s slot is_local l ≡ (s, i % 256)
  unfolding add_upvalue
  add_upvalue_found s slot is_local l i e = rw (e, add_upvalue) refl

  add_upvalue_new :
      (s : Scope V) (slot : ℕ) (is_local : Bool) (l : Local V)
      → find_upvalue s.upvalues 0 slot is_local ≡ none
      → add_upvalue s slot is_local l ≡ (
        record s { upvalues = s.upvalues ++ new_ref slot is_local l ∷ [] },
        length s.upvalues % 256,
      )
  unfolding add_upvalue
  add_upvalue_new s slot is_local l e = rw (e, add_upvalue) refl

  add_upvalue-HasRef :
      (s : Scope V) (slot : ℕ) (is_local : Bool) (l : Local V)
      → length s.upvalues < 256
      → HasRef
          (add_upvalue s slot is_local l).0.upvalues
          ((add_upvalue s slot is_local l).1)
          slot
          is_local
  add_upvalue-HasRef s slot is_local l room =
      elim (Option-cases (find_upvalue s.upvalues 0 slot is_local)) [
        | inl e ↦
            let z : length s.upvalues % 256 ≡ length s.upvalues = omega (arith, room) in
            rw (add_upvalue_new s slot is_local l e, z)
              (
                new_ref slot is_local l,
                get_elem?-end s.upvalues (new_ref slot is_local l),
                refl,
                refl,
              )
        | inr (i, e) ↦
            let (j, p, q, h) = find_upvalue-HasRef s.upvalues 0 slot is_local i e in
            let z : i % 256 ≡ j = omega (arith, p, q, room) in
            rw (add_upvalue_found s slot is_local l i e, z) h
      ]

  abbrev pub Resolved : List (Scope V) → Text → List (Scope V) × Option (ℕ × Local V) → Type 0
  Resolved ss name (after, none) = (nearest (outer ss) name ≡ none) × (after ≡ ss)
  Resolved ss name (after, some (i, l)) =
      (level : ℕ) × (nearest (outer ss) name ≡ some (level, l))
      × (captured after i ≡ some (level, l.slot))

  captured_local :
      (s : Scope V) (ps : List (Scope V)) (i slot : ℕ)
      → HasRef s.upvalues i slot true
      → captured (s ∷ ps) i ≡ some (1, slot)
  unfolding captured
  captured_local s ps i slot (u, e, p, q) = rw (e, captured, q, p) refl

  captured_outer :
      (s : Scope V) (ps : List (Scope V)) (i j level slot : ℕ)
      → HasRef s.upvalues i j false
      → captured ps j ≡ some (level, slot)
      → captured (s ∷ ps) i ≡ some (suc level, slot)
  unfolding captured
  captured_outer s ps i j level slot (u, e, p, q) h = rw (e, captured, q, p, h) refl

  nearest_here :
      (p : Scope V) (ps : List (Scope V)) (name : Text) (l : Local V)
      → resolve_local p.locals name ≡ some l
      → nearest (p ∷ ps) name ≡ some (1, l)
  unfolding nearest
  nearest_here p ps name l e = rw (e, nearest) refl

  nearest_further :
      (p : Scope V) (ps : List (Scope V)) (name : Text)
      → resolve_local p.locals name ≡ none
      → nearest (p ∷ ps) name ≡ Option.map (λ r. (suc r.0, r.1)) (nearest ps name)
  unfolding nearest
  nearest_further p ps name e = rw (e, nearest) refl

  add_outer-Resolved :
      (s p : Scope V) (ps : List (Scope V)) (name : Text)
      (r : List (Scope V) × Option (ℕ × Local V))
      → length s.upvalues < 256
      → resolve_local p.locals name ≡ none
      → Resolved (p ∷ ps) name r
      → Resolved (s ∷ p ∷ ps) name (add_outer s r)
  add_outer-Resolved s p ps name (after, none) room e (h, same) =
      (nearest_further p ps name e ∙ rw h refl, ap (◌∷◌ s) same)
  add_outer-Resolved s p ps name (after, some (i, l)) room e (level, h, c) = (
    suc level,
    nearest_further p ps name e ∙ rw h refl,
    captured_outer _ after _ i level l.slot (add_upvalue-HasRef s i false l room) c,
  )

  resolve_here :
      (s p : Scope V) (ps : List (Scope V)) (name : Text) (l : Local V)
      → resolve_local p.locals name ≡ some l
      → resolve_upvalue_from (s ∷ p ∷ ps) name ≡ add_to s true l.slot l (p ∷ ps)
  unfolding resolve_upvalue_from
  resolve_here s p ps name l e = rw (e, resolve_upvalue_from) refl

  resolve_further :
      (s p : Scope V) (ps : List (Scope V)) (name : Text)
      → resolve_local p.locals name ≡ none
      → resolve_upvalue_from (s ∷ p ∷ ps) name ≡ add_outer s (resolve_upvalue_from (p ∷ ps) name)
  unfolding resolve_upvalue_from
  resolve_further s p ps name e = rw (e, resolve_upvalue_from) refl

  -- Resolution of an upvalue, where no function has 256 upvalues or more: it finds a name exactly when
  -- one of the enclosing functions has a local of it. Then the index that it returns stands, through the
  -- upvalues of the functions between, for the last such local of the nearest function; else no state
  -- changes.
  pub resolve_upvalue_from-Resolved :
      (ss : List (Scope V)) (name : Text)
      → All (λ s. length s.upvalues < 256) ss
      → Resolved ss name (resolve_upvalue_from ss name)
  unfolding resolve_upvalue_from
  resolve_upvalue_from-Resolved [] name h = unfold nearest in (refl, refl)
  resolve_upvalue_from-Resolved (s ∷ []) name h = unfold nearest in (refl, refl)
  resolve_upvalue_from-Resolved (s ∷ p ∷ ps) name h =
      elim (Option-cases (resolve_local p.locals name)) [
        | inl e ↦
            let q =
              add_outer-Resolved s p ps name (resolve_upvalue_from (p ∷ ps) name) h.0 e
                (resolve_upvalue_from-Resolved (p ∷ ps) name h.1) in
            rw (resolve_further s p ps name e) q
        | inr (l, e) ↦ rw (resolve_here s p ps name l e) (
          1,
          nearest_here p ps name l e,
          captured_local _ (p ∷ ps) _ l.slot (add_upvalue-HasRef s l.slot true l h.0),
        )
      ]
