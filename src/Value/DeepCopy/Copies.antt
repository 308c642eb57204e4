-- ===== src/Value/DeepCopy/Copies.antt =====
-- One level of `DeepCopy`: what the copying of an object does if that of what it holds does its part.
use polyloft_bvm.Prelude.{
  ℕ, suc, ◌≤◌, ◌<◌, ◌≡◌, refl, ◌∙◌, sym, List, [], ◌∷◌, ◌++◌, append_assoc, none, some, inl, inr,
  All, arith, length,
}
use polyloft_bvm.Value.{Float64}
use polyloft_bvm.Value.DeepCopy.{
  Ref, Object, State, Run, done, last, order, make_slots, find_copy, set_object, address, register,
  Copier, copy_slots, object_value, copy_first, copy_last,
}
use polyloft_bvm.Value.DeepCopy.Visited.{
  IsCopy-later, IsCopy-append, unvisited, unvisited-append, unvisited_less,
}
use polyloft_bvm.Value.DeepCopy.Clones.{
  set_object_here, set_object_other, CopyRef, cloned, Copies, CopyRef-later, Copies-later, Grows,
  Grows-refl, Grows-trans,
}

module _ (fl : Float64) (n : ℕ) (h : ℕ → Object fl.F) where
  -- A value without an object, or with one of the heap.
  abbrev pub InHeap : Ref fl.F → Type 0
  InHeap v = (p : ℕ) → address v ≡ some p → p < n

  -- A heap that `DeepCopy` can copy: what its objects hold is in the heap, no instance has two to four
  -- fields, and the objects that are registered last, which are bound methods and wrappers of functions,
  -- are in no cycle by themselves.
  pub record IsHeap (rank : ℕ → ℕ) (top : ℕ) : Type 0 where
    pub closed : (p : ℕ) → p < n → All InHeap (h p).slots
    pub inline : (p : ℕ) → p < n → make_slots (h p) ≡ done (length (h p).slots)
    pub below : (p : ℕ) → p < n → rank p < top
    pub acyclic :
        (p : ℕ)
        → p < n
        → order (h p).shape ≡ last
        → All
            (λ v. (q : ℕ) → address v ≡ some q → order (h q).shape ≡ last → rank q < rank p)
            (h p).slots

  -- The heap is still there.
  pub record Ready (st : State fl.F) : Type 0 where
    pub size : n ≤ st.size
    pub objects : (p : ℕ) → p < n → st.objects p ≡ h p

  pub Grows-Ready : {st st' : State fl.F} → Grows fl h st st' → Ready st → Ready st'
  Grows-Ready g r = record {
    size = omega (arith, g.grown, r.size);
    objects = λ p l. g.stays p (omega (arith, l, r.size)) ∙ r.objects p l;
  }

  -- The copying of a value, and of several.
  pub record Copied (c : Run (Ref fl.F × State fl.F)) (st : State fl.F) (v : Ref fl.F)
      : Type 0 where
    pub copy : Ref fl.F
    pub state : State fl.F
    pub ends : c ≡ done (copy, state)
    pub grows : Grows fl h st state
    pub ref : CopyRef fl h state.visited v copy

  record CopiedAll (c : Run (List (Ref fl.F) × State fl.F)) (st : State fl.F) (vs : List (Ref fl.F))
      : Type 0 where
    copies : List (Ref fl.F)
    state : State fl.F
    ends : c ≡ done (copies, state)
    grows : Grows fl h st state
    refs : Copies fl h state.visited vs copies

  -- What a copier does for values of a weight, on states with few addresses to visit.
  abbrev pub Copying : Copier fl.F → ℕ → (Ref fl.F → Type 0) → Type 0
  Copying copy u P =
      (v : Ref fl.F) (st : State fl.F)
      → InHeap v
      → P v
      → Ready st
      → unvisited st.visited n ≤ u
      → Copied (copy v st) st v

  Grows-unvisited :
      {st st' : State fl.F} → Grows fl h st st' → unvisited st'.visited n ≤ unvisited st.visited n
  Grows-unvisited {st = st} {st' = st'} g = rw g.visited (unvisited-append g.added st.visited n)

  copy_slots-CopiedAll :
      (copy : Copier fl.F) (u : ℕ) (P : Ref fl.F → Type 0) (vs : List (Ref fl.F)) (st : State fl.F)
      → Copying copy u P
      → All InHeap vs
      → All P vs
      → Ready st
      → unvisited st.visited n ≤ u
      → CopiedAll (copy_slots copy vs st) st vs
  unfolding copy_slots
  copy_slots-CopiedAll copy u P [] st c i p r b = record {
    copies = [];
    state = st;
    ends = refl;
    grows = Grows-refl fl h st;
    refs = tt;
  }
  copy_slots-CopiedAll copy u P (v ∷ vs) st c i p r b =
      let a = c v st i.0 p.0 r b in
      let z =
        copy_slots-CopiedAll copy u P vs a.state c i.1 p.1 (Grows-Ready a.grows r)
          (omega (arith, b, Grows-unvisited a.grows)) in
      record {
        copies = a.copy ∷ z.copies;
        state = z.state;
        ends = rw (a.ends, z.ends) refl;
        grows = Grows-trans fl h a.grows z.grows;
        refs = (
          rw z.grows.visited (CopyRef-later fl h z.grows.added a.state.visited v a.copy a.ref),
          z.refs,
        );
      }

  abbrev blank : ℕ → Object fl.F
  blank p = record (h p) { slots = [] }

  abbrev filled : ℕ → List (Ref fl.F) → Object fl.F
  filled p slots = record (h p) { slots = slots }

  -- A registered clone that is filled.
  fill-Grows :
      (p : ℕ) (st s : State fl.F) (slots : List (Ref fl.F))
      → Grows fl h (register p (blank p) st) s
      → Copies fl h s.visited (h p).slots slots
      → Grows fl h st (record s { objects = set_object st.size (filled p slots) s.objects })
  unfolding register
  fill-Grows p st s slots g c = record {
    added = g.added ++ (p, st.size) ∷ [];
    visited = g.visited ∙ sym (append_assoc g.added ((p, st.size) ∷ []) st.visited);
    grown = omega (arith, g.grown);
    stays = λ a l.
        set_object_other st.size a (filled p slots) s.objects (omega (arith, l))
        ∙ g.stays a (omega (arith, l))
        ∙ set_object_other st.size a (blank p) st.objects (omega (arith, l));
    clones = λ k q d. elim (IsCopy-append g.added ((p, st.size) ∷ []) k q d) [
      | inl d ↦
          let (l, u, o) = g.clones k q d in
          (
            omega (arith, l),
            u,
            rw (set_object_other st.size q (filled p slots) s.objects (omega (arith, l))) o,
          )
      | inr (inl (e, f)) ↦
          rw (← e, ← f)
            (
              omega arith,
              omega (arith, g.grown),
              rw (set_object_here st.size (filled p slots) s.objects) (refl, c),
            )
      | inr (inr d) ↦ absurd (d)
    ];
  }

  -- A clone that is registered when it is filled.
  register-Grows :
      (p : ℕ) (st : State fl.F) (slots : List (Ref fl.F))
      → Copies fl h st.visited (h p).slots slots
      → Grows fl h st (register p (filled p slots) st)
  unfolding register
  register-Grows p st slots c = record {
    added = (p, st.size) ∷ [];
    visited = refl;
    grown = omega arith;
    stays = λ a l. set_object_other st.size a (filled p slots) st.objects (omega (arith, l));
    clones = λ k q d. elim d [
      | inl (e, f) ↦
          rw (← e, ← f)
            (
              omega arith,
              omega arith,
              rw (set_object_here st.size (filled p slots) st.objects)
                  (refl, Copies-later fl h ((p, st.size) ∷ []) st.visited (h p).slots slots c),
            )
      | inr d ↦ absurd (d)
    ];
  }

  pub copy_first-Copied :
      (copy : Copier fl.F) (u : ℕ) (P : Ref fl.F → Type 0) (v : Ref fl.F) (p : ℕ) (st : State fl.F)
      → Copying copy u P
      → All InHeap (h p).slots
      → All P (h p).slots
      → address v ≡ some p
      → p < n
      → find_copy p st.visited ≡ none
      → Ready st
      → unvisited st.visited n ≤ suc u
      → Copied (copy_first fl copy p (h p) st) st v
  unfolding copy_first
  copy_first-Copied copy u P v p st c i w e l f r b =
      let start = register p (blank p) st in
      let few : unvisited start.visited n ≤ u =
        unfold register in omega (arith, b, unvisited_less p st.size n st.visited f l) in
      let ready : Ready start =
        unfold register in
        record {
          size = omega (arith, r.size);
          objects = λ a m.
              set_object_other st.size a (blank p) st.objects (omega (arith, r.size, m))
              ∙ r.objects a m;
        } in
      let z = copy_slots-CopiedAll copy u P (h p).slots start c i w ready few in
      let g = fill-Grows p st z.state z.copies z.grows z.refs in
      record {
        copy = object_value fl st.size;
        state = record z.state { objects = set_object st.size (filled p z.copies) z.state.objects };
        ends = rw z.ends refl;
        grows = g;
        ref = cloned v p st.size e (
            rw z.grows.visited (
              unfold register in
              IsCopy-later z.grows.added ((p, st.size) ∷ st.visited) p st.size (inl (refl, refl))));
      }

  pub copy_last-Copied :
      (copy : Copier fl.F) (u : ℕ) (P : Ref fl.F → Type 0) (v : Ref fl.F) (p : ℕ) (st : State fl.F)
      → Copying copy u P
      → All InHeap (h p).slots
      → All P (h p).slots
      → address v ≡ some p
      → Ready st
      → unvisited st.visited n ≤ u
      → Copied (copy_last fl copy p (h p) st) st v
  unfolding copy_last
  copy_last-Copied copy u P v p st c i w e r b =
      let z = copy_slots-CopiedAll copy u P (h p).slots st c i w r b in
      record {
        copy = object_value fl z.state.size;
        state = register p (filled p z.copies) z.state;
        ends = rw z.ends refl;
        grows = Grows-trans fl h z.grows (register-Grows p z.state z.copies z.refs);
        ref = unfold register in cloned v p z.state.size e (inl (refl, refl));
      }
