-- ===== src/Value/Class/Lookup/Nearest.antt =====
-- What the lookups of `Class` find along the superclasses.
use polyloft_bvm.Prelude.{
  ℕ, ◌≡◌, ◌≢◌, refl, ◌∙◌, ap, List, [], ◌∷◌, ◌++◌, append_assoc, Option, none, some, Text, get?,
  All, All-append, ==_iff, ◌==◌, if_case, arith,
}
use polyloft_bvm.Bytecode.{Function}
use polyloft_bvm.Value.Class.{Class}
use polyloft_bvm.Value.Class.Lookup.{
  first_of_arity, ranged, method_of_arity, own_method_by_arity, lookup_method_by_arity,
  first_overload, own_method, lookup_method,
}

module _ {K : Type 0} where
  -- Nil, or a function with another number of parameters.
  abbrev pub Differs : ℕ → Option (Function K) → Type 0
  Differs argc none = Unit {0}
  Differs argc (some f) = f.arity ≢ argc

  -- The first function of a list with `argc` parameters, or that there is none.
  abbrev pub IsFirst : ℕ → List (Option (Function K)) → Option (Function K) → Type 0
  IsFirst argc fs none = All (Differs argc) fs
  IsFirst argc fs (some f) =
      (before after : List (Option (Function K))) × (fs ≡ before ++ some f ∷ after)
      × (f.arity ≡ argc)
      × All (Differs argc) before

  IsFirst-skip :
      (argc : ℕ) (g : Option (Function K)) (fs : List (Option (Function K)))
      (r : Option (Function K))
      → Differs argc g
      → IsFirst argc fs r
      → IsFirst argc (g ∷ fs) r
  IsFirst-skip argc g fs none d h = (d, h)
  IsFirst-skip argc g fs (some f) d (before, after, e, a, k) =
      (g ∷ before, after, ap (◌∷◌ g) e, a, (d, k))

  first_of_arity-IsFirst :
      (argc : ℕ) (fs : List (Option (Function K))) → IsFirst argc fs (first_of_arity argc fs)
  unfolding first_of_arity
  first_of_arity-IsFirst argc [] = tt
  first_of_arity-IsFirst argc (none ∷ fs) =
      IsFirst-skip argc none fs (first_of_arity argc fs) tt (first_of_arity-IsFirst argc fs)
  first_of_arity-IsFirst argc (some f ∷ fs) =
      if_case (IsFirst argc (some f ∷ fs)) (f.arity == argc)
        (λ t. ([], fs, refl, (==_iff f.arity argc).0 t, tt))
        (λ t.
          let ne : f.arity ≢ argc = ground (arith, t) in
          IsFirst-skip argc (some f) fs (first_of_arity argc fs) ne
            (first_of_arity-IsFirst argc fs))

  -- The method of a class, after its overloads.
  abbrev pub entry : Option (Option (Function K)) → List (Option (Function K))
  entry none = []
  entry (some m) = m ∷ []

  method_of_arity-IsFirst :
      (argc : ℕ) (m : Option (Option (Function K)))
      → IsFirst argc (entry m) (method_of_arity argc m)
  method_of_arity-IsFirst argc none = tt
  method_of_arity-IsFirst argc (some none) = (tt, tt)
  method_of_arity-IsFirst argc (some (some f)) =
      if_case (IsFirst argc (some f ∷ [])) (f.arity == argc)
        (λ t. ([], [], refl, (==_iff f.arity argc).0 t, tt))
        (λ t. let ne : f.arity ≢ argc = ground (arith, t) in (ne, tt))

  IsFirst-right :
      (argc : ℕ) (fs gs : List (Option (Function K))) (r : Option (Function K))
      → All (Differs argc) fs
      → IsFirst argc gs r
      → IsFirst argc (fs ++ gs) r
  IsFirst-right argc fs gs none h k = All-append (Differs argc) fs gs h k
  IsFirst-right argc [] gs (some f) h k = k
  IsFirst-right argc (g ∷ fs) gs (some f) h k =
      IsFirst-skip argc g (fs ++ gs) (some f) h.0 (IsFirst-right argc fs gs (some f) h.1 k)

  IsFirst-left :
      (argc : ℕ) (fs gs : List (Option (Function K))) (f : Function K)
      → IsFirst argc fs (some f)
      → IsFirst argc (fs ++ gs) (some f)
  IsFirst-left argc fs gs f (before, after, e, a, h) =
      (before, after ++ gs, ap (λ l. l ++ gs) e ∙ append_assoc before (some f ∷ after) gs, a, h)

  -- The first of the overloads, or else the method.
  IsFirst-or :
      (argc : ℕ) (fs gs : List (Option (Function K))) (r s : Option (Function K))
      → IsFirst argc fs r
      → IsFirst argc gs s
      → IsFirst argc (fs ++ gs) (elim r [ some f ↦ some f | none ↦ s ])
  IsFirst-or argc fs gs none s h k = IsFirst-right argc fs gs s h k
  IsFirst-or argc fs gs (some f) s h k = IsFirst-left argc fs gs f h

  first_overload-first_of_arity :
      (argc : ℕ) (fs : List (Option (Function K)))
      → first_overload fs ≡ none
      → first_of_arity argc fs ≡ none
  unfolding first_overload first_of_arity
  first_overload-first_of_arity argc [] h = refl
  first_overload-first_of_arity argc (none ∷ fs) h = first_overload-first_of_arity argc fs h
  first_overload-first_of_arity argc (some f ∷ fs) h = absurd (cc)

  module _ {V P : Type 0} where
    -- The methods of one class under a name, in the order of the search.
    abbrev pub candidates : Text → (Class (Function K) V P) → List (Option (Function K))
    candidates name c = ranged (get? name c.method_overloads) ++ entry (get? name c.methods)

    own-IsFirst :
        (name : Text) (argc : ℕ) (c : (Class (Function K) V P))
        → IsFirst argc (candidates name c) (own_method_by_arity name argc c)
    unfolding own_method_by_arity
    own-IsFirst name argc c =
        let fs = ranged (get? name c.method_overloads) in
        let m = get? name c.methods in
        IsFirst-or argc fs (entry m) (first_of_arity argc fs) (method_of_arity argc m)
          (first_of_arity-IsFirst argc fs) (method_of_arity-IsFirst argc m)

    abbrev pub Lacks : Text → ℕ → (Class (Function K) V P) → Type 0
    Lacks name argc c = All (Differs argc) (candidates name c)

    -- The method is the first of the nearest class that has one, which is the owner.
    abbrev pub Resolved :
        Text
        → ℕ
        → List (Class (Function K) V P)
        → Option (Function K × (Class (Function K) V P))
        → Type 0
    Resolved name argc chain none = All (Lacks name argc) chain
    Resolved name argc chain (some (f, c)) =
        (near far : List (Class (Function K) V P)) × (chain ≡ near ++ c ∷ far)
        × IsFirst argc (candidates name c) (some f)
        × All (Lacks name argc) near

    further :
        (name : Text) (argc : ℕ) (c : (Class (Function K) V P))
        (supers : List (Class (Function K) V P))
        (r : Option (Function K × (Class (Function K) V P)))
        → Lacks name argc c
        → Resolved name argc supers r
        → Resolved name argc (c ∷ supers) r
    further name argc c supers none l h = (l, h)
    further name argc c supers (some (f, d)) l (near, far, e, i, k) =
        (c ∷ near, far, ap (◌∷◌ c) e, i, (l, k))

    nearest :
        (name : Text) (argc : ℕ) (c : (Class (Function K) V P))
        (supers : List (Class (Function K) V P)) (o : Option (Function K))
        (r : Option (Function K × (Class (Function K) V P)))
        → IsFirst argc (candidates name c) o
        → Resolved name argc supers r
        → Resolved name argc (c ∷ supers) (elim o [ some f ↦ some (f, c) | none ↦ r ])
    nearest name argc c supers none r i h = further name argc c supers r i h
    nearest name argc c supers (some f) r i h = ([], supers, refl, i, tt)

    -- LookupMethodByArity finds the first function with the number of parameters, among the overloads and
    -- then the method of the name, in the nearest class that has one, and returns that class with it; or
    -- it finds nothing, and no class of the chain has one.
    pub lookup_method_by_arity-Resolved :
        (name : Text) (argc : ℕ) (chain : List (Class (Function K) V P))
        → Resolved name argc chain (lookup_method_by_arity name argc chain)
    unfolding lookup_method_by_arity
    lookup_method_by_arity-Resolved name argc [] = tt
    lookup_method_by_arity-Resolved name argc (c ∷ supers) =
        nearest name argc c supers (own_method_by_arity name argc c)
          (lookup_method_by_arity name argc supers) (own-IsFirst name argc c)
          (lookup_method_by_arity-Resolved name argc supers)

    own_method-own_method_by_arity :
        (name : Text) (argc : ℕ) (c : Class (Function K) V P)
        → own_method name c ≡ none
        → own_method_by_arity name argc c ≡ none
    unfolding own_method own_method_by_arity
    own_method-own_method_by_arity name argc c h =
        ground
          (arith, first_overload-first_of_arity argc (ranged (get? name c.method_overloads)), h)

    -- Where LookupMethod finds nothing, LookupMethodByArity finds nothing for any number of parameters.
    pub lookup_method-lookup_method_by_arity :
        (name : Text) (argc : ℕ) (chain : List (Class (Function K) V P))
        → lookup_method name chain ≡ none
        → lookup_method_by_arity name argc chain ≡ none
    unfolding lookup_method lookup_method_by_arity
    lookup_method-lookup_method_by_arity name argc [] h = refl
    lookup_method-lookup_method_by_arity name argc (c ∷ supers) h = ground (
      arith,
      own_method-own_method_by_arity name argc c,
      lookup_method-lookup_method_by_arity name argc supers,
      h,
    )
