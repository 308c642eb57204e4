-- ===== src/Value/DeepCopy/Ends.antt =====
-- `DeepCopy` ends, with clones of all that it visits.
use polyloft_bvm.Prelude.{
  ℕ, zero, suc, ◌+◌, ◌*◌, ◌≤◌, ◌<◌, ◌≡◌, ◌⊎◌, refl, [], Option, none, some, inl, inr, All, All-map,
  append-nil, Option-cases, arith,
}
use polyloft_bvm.Value.{Float64}
use polyloft_bvm.Value.DeepCopy.{
  Ref, Object, State, Run, done, Order, first, last, never, order, find_copy, address, object_value,
  copy_object, copy_address, deep_copy_value, deep_copy,
}
use polyloft_bvm.Value.DeepCopy.Visited.{
  IsCopy, find_copy-IsCopy, unvisited, unvisited_all, unvisited_less,
}
use polyloft_bvm.Value.DeepCopy.Clones.{CopyRef, same, kept, cloned, IsClone, Grows-refl}
use polyloft_bvm.Value.DeepCopy.Copies.{
  IsHeap, InHeap, Ready, Copied, Copying, copy_first-Copied, copy_last-Copied,
}

pub Order-cases : (o : Order) → (o ≡ first) ⊎ (o ≡ last) ⊎ (o ≡ never)
Order-cases first = inl refl
Order-cases last = inr (inl refl)
Order-cases never = inr (inr refl)

module _ (fl : Float64) (n : ℕ) (h : ℕ → Object fl.F) (rank : ℕ → ℕ) (top : ℕ)
    (heap : IsHeap fl n h rank top) where
  -- The depth of fuel that a value takes, without new addresses.
  abbrev weight_at : ℕ → Order → ℕ
  weight_at p last = rank p + 2
  weight_at p _ = 1

  abbrev weight_of : Option ℕ → ℕ
  weight_of none = 1
  weight_of (some p) = weight_at p (order (h p).shape)

  weight_at_pos : (p : ℕ) (o : Order) → 1 ≤ weight_at p o
  weight_at_pos p first = omega arith
  weight_at_pos p last = omega arith
  weight_at_pos p never = omega arith

  weight_of_pos : (o : Option ℕ) → 1 ≤ weight_of o
  weight_of_pos none = omega arith
  weight_of_pos (some p) = weight_at_pos p (order (h p).shape)

  weight_at_le : (p : ℕ) (o : Order) (b : ℕ) → (o ≡ last → rank p < b) → weight_at p o ≤ b + 1
  weight_at_le p first b k = omega arith
  weight_at_le p last b k = omega (arith, k refl)
  weight_at_le p never b k = omega arith

  weight_le :
      (v : Ref fl.F) (b : ℕ)
      → ((p : ℕ) → address v ≡ some p → order (h p).shape ≡ last → rank p < b)
      → weight_of (address v) ≤ b + 1
  weight_le v b k = elim (Option-cases (address v)) [
    | inl e ↦ rw e (omega arith)
    | inr (p, e) ↦ rw e (weight_at_le p (order (h p).shape) b (k p e))
  ]

  -- The weights of what an object holds.
  slots_weight : (p : ℕ) → p < n → All (λ v. weight_of (address v) ≤ top + 1) (h p).slots
  slots_weight p l =
      All-map (λ v i. weight_le v top (λ q e o. heap.below q (i q e))) (h p).slots (heap.closed p l)

  slots_weight_last :
      (p : ℕ)
      → p < n
      → order (h p).shape ≡ last
      → All (λ v. weight_of (address v) ≤ rank p + 1) (h p).slots
  slots_weight_last p l o = All-map (λ v a. weight_le v (rank p) a) (h p).slots (heap.acyclic p l o)

  abbrev Enough : ℕ → ℕ → Ref fl.F → Type 0
  Enough k u v = u * (top + 1) + weight_of (address v) ≤ k

  copy_object_first :
      (k u : ℕ) (v : Ref fl.F) (p : ℕ) (st : State fl.F)
      → ((u : ℕ) → Copying fl n h (deep_copy_value fl k) u (Enough k u))
      → address v ≡ some p
      → p < n
      → find_copy p st.visited ≡ none
      → Ready fl n h st
      → u * (top + 1) + 1 ≤ suc k
      → unvisited st.visited n ≤ u
      → order (h p).shape ≡ first
      → Copied fl n h (copy_object fl (deep_copy_value fl k) v p (h p) st) st v
  unfolding copy_object
  copy_object_first k zero v p st c e l f r b un o =
      absurd (omega (arith, un, unvisited_less p st.size n st.visited f l))
  copy_object_first k (suc u) v p st c e l f r b un o =
      let enough : All (Enough k u) (h p).slots =
        All-map (λ w i. omega (arith, b, i)) (h p).slots (slots_weight p l) in
      rw (copy_object, o, heap.inline p l)
        (copy_first-Copied fl n h (deep_copy_value fl k) u (Enough k u) v p st (c u)
          (heap.closed p l) enough e l f r un)

  copy_object-Copied :
      (k u : ℕ) (v : Ref fl.F) (p : ℕ) (st : State fl.F)
      → ((u : ℕ) → Copying fl n h (deep_copy_value fl k) u (Enough k u))
      → address v ≡ some p
      → p < n
      → find_copy p st.visited ≡ none
      → Ready fl n h st
      → u * (top + 1) + weight_of (address v) ≤ suc k
      → unvisited st.visited n ≤ u
      → Copied fl n h (copy_object fl (deep_copy_value fl k) v p (h p) st) st v
  unfolding copy_object
  copy_object-Copied k u v p st c e l f r b un =
      let spent : u * (top + 1) + weight_at p (order (h p).shape) ≤ suc k = rw e at b in
      elim (Order-cases (order (h p).shape)) [
        | inl o ↦ copy_object_first k u v p st c e l f r (rw o at spent) un o
        | inr (inl o) ↦
            let enough : All (Enough k u) (h p).slots =
              All-map
                (λ w i.
                  (let d : u * (top + 1) + (rank p + 2) ≤ suc k = rw o at spent in
                    omega (arith, d, i)))
                (h p).slots (slots_weight_last p l o) in
            rw (copy_object, o)
              (copy_last-Copied fl n h (deep_copy_value fl k) u (Enough k u) v p st (c u)
                (heap.closed p l) enough e r un)
        | inr (inr o) ↦
            rw (copy_object, o)
              (record {
                copy = v;
                state = st;
                ends = refl;
                grows = Grows-refl fl h st;
                ref = kept v p e o;
              })
      ]

  copy_address-Copied :
      (k u : ℕ) (v : Ref fl.F) (p : ℕ) (st : State fl.F)
      → ((u : ℕ) → Copying fl n h (deep_copy_value fl k) u (Enough k u))
      → address v ≡ some p
      → p < n
      → Ready fl n h st
      → u * (top + 1) + weight_of (address v) ≤ suc k
      → unvisited st.visited n ≤ u
      → Copied fl n h (copy_address fl (deep_copy_value fl k) v p st) st v
  unfolding copy_address
  copy_address-Copied k u v p st c e l r b un = elim (Option-cases (find_copy p st.visited)) [
    | inl f ↦ rw (copy_address, f, r.objects p l) (copy_object-Copied k u v p st c e l f r b un)
    | inr (q, f) ↦
        rw (copy_address, f)
          (record {
            copy = object_value fl q;
            state = st;
            ends = refl;
            grows = Grows-refl fl h st;
            ref = cloned v p q e (find_copy-IsCopy p q st.visited f);
          })
  ]

  deep_copy_value-Copied : (k u : ℕ) → Copying fl n h (deep_copy_value fl k) u (Enough k u)
  unfolding deep_copy_value
  deep_copy_value-Copied zero u v st i b r un = absurd (omega (arith, b, weight_of_pos (address v)))
  deep_copy_value-Copied (suc k) u v st i b r un = elim (Option-cases (address v)) [
    | inl e ↦
        rw (deep_copy_value, e)
          (record { copy = v; state = st; ends = refl; grows = Grows-refl fl h st; ref = same v e })
    | inr (p, e) ↦
        rw (deep_copy_value, e)
          (copy_address-Copied k u v p st (deep_copy_value-Copied k) e (i p e) r b un)
  ]

  -- What `DeepCopy` returns: the objects that were there are as before, every visited object has a new
  -- clone, and the value returned is the copy of the one given.
  pub record DeepCopied (c : Run (Ref fl.F × State fl.F)) (v : Ref fl.F) : Type 0 where
    pub copy : Ref fl.F
    pub state : State fl.F
    pub ends : c ≡ done (copy, state)
    pub stays : (p : ℕ) → p < n → state.objects p ≡ h p
    pub ref : CopyRef fl h state.visited v copy
    pub clones :
        (p q : ℕ)
        → IsCopy state.visited p q
        → (n ≤ q) × (q < state.size) × IsClone fl h state.visited p (state.objects q)

  -- `DeepCopy` of a value of a heap, cyclic or not, ends within a depth of as many calls as the heap has
  -- objects, by the length of the longest chain of bound methods and wrappers. It changes no object that
  -- was there, and returns the value itself if it has nothing to copy, or else a pointer to a clone; a
  -- clone is a new object with the type and data of its original, and holds copies of what that holds.
  -- The heap has no instance with two to four fields, and no cycle of bound methods and wrappers alone.
  pub deep_copy-DeepCopied :
      (fuel : ℕ) (v : Ref fl.F)
      → InHeap fl n h v
      → (n + 1) * (top + 1) ≤ fuel
      → DeepCopied (deep_copy fl fuel v n h) v
  unfolding deep_copy
  deep_copy-DeepCopied fuel v i b =
      let start : State fl.F = record { size = n; objects = h; visited = [] } in
      let c =
        deep_copy_value-Copied fuel n v start i
          (omega (arith, b, weight_le v top (λ p e o. heap.below p (i p e))))
          (record { size = omega arith; objects = λ p l. refl }) (unvisited_all n) in
      record {
        copy = c.copy;
        state = c.state;
        ends = c.ends;
        stays = c.grows.stays;
        ref = c.ref;
        clones = λ p q d. c.grows.clones p q (rw (c.grows.visited, append-nil) at d);
      }
