-- ===== src/Value/DeepCopy/Clones.antt =====
-- What `DeepCopy` keeps: the objects that were there, and clones that hold what their originals hold.
use polyloft_bvm.Prelude.{
  ℕ, ◌≤◌, ◌<◌, ◌≡◌, ◌≢◌, refl, ap, ◌∙◌, sym, List, [], ◌∷◌, ◌++◌, append_assoc, none, some, inl,
  inr, ◌==◌, if_case, ==_iff, arith,
}
use polyloft_bvm.Value.{Float64}
use polyloft_bvm.Value.DeepCopy.{
  Ref, Object, State, never, order, set_object, address, object_value,
}
use polyloft_bvm.Value.DeepCopy.Visited.{IsCopy, IsCopy-append, IsCopy-later}

pub set_object_here :
    {F : Type 0} (a : ℕ) (o : Object F) (m : ℕ → Object F) → set_object a o m a ≡ o
set_object_here a o m = if_case (λ x. x ≡ o) (a == a) (λ t. refl) (λ f. absurd (ground (arith, f)))

pub set_object_other :
    {F : Type 0} (a b : ℕ) (o : Object F) (m : ℕ → Object F) → a ≢ b → set_object a o m b ≡ m b
set_object_other a b o m ne =
    if_case (λ x. x ≡ m b) (a == b) (λ t. absurd (ne ((==_iff a b).0 t))) (λ f. refl)

module _ (fl : Float64) (h : ℕ → Object fl.F) where
  -- A value and its copy: the value itself if it has no object or one that is never copied, and otherwise
  -- a pointer to a clone.
  pub data CopyRef (es : List (ℕ × ℕ)) : Ref fl.F → Ref fl.F → Type 0 where
    same : (v : Ref fl.F) → address v ≡ none → CopyRef es v v
    kept : (v : Ref fl.F) (p : ℕ) → address v ≡ some p → order (h p).shape ≡ never → CopyRef es v v
    cloned :
        (v : Ref fl.F) (p q : ℕ)
        → address v ≡ some p
        → IsCopy es p q
        → CopyRef es v (object_value fl q)

  abbrev pub Copies : List (ℕ × ℕ) → List (Ref fl.F) → List (Ref fl.F) → Type 0
  Copies es [] [] = Unit {0}
  Copies es (v ∷ vs) (w ∷ ws) = CopyRef es v w × Copies es vs ws
  Copies es _ _ = ⊥

  -- A clone of the object at `p`: the same type and data, and copies of what it holds.
  abbrev pub IsClone : List (ℕ × ℕ) → ℕ → Object fl.F → Type 0
  IsClone es p o = (o.shape ≡ (h p).shape) × Copies es (h p).slots o.slots

  pub CopyRef-later :
      (ds es : List (ℕ × ℕ)) (v w : Ref fl.F) → CopyRef es v w → CopyRef (ds ++ es) v w
  CopyRef-later ds es v _ (same _ e) = same v e
  CopyRef-later ds es v _ (kept _ p e n) = kept v p e n
  CopyRef-later ds es v _ (cloned _ p q e c) = cloned v p q e (IsCopy-later ds es p q c)

  pub Copies-later :
      (ds es : List (ℕ × ℕ)) (vs ws : List (Ref fl.F)) → Copies es vs ws → Copies (ds ++ es) vs ws
  Copies-later ds es [] [] c = tt
  Copies-later ds es [] (w ∷ ws) c = absurd (c)
  Copies-later ds es (v ∷ vs) [] c = absurd (c)
  Copies-later ds es (v ∷ vs) (w ∷ ws) c =
      (CopyRef-later ds es v w c.0, Copies-later ds es vs ws c.1)

  -- From one state to a later one: what was there stays, and the new pairs lead to new clones.
  pub record Grows (st st' : State fl.F) : Type 0 where
    pub added : List (ℕ × ℕ)
    pub visited : st'.visited ≡ added ++ st.visited
    pub grown : st.size ≤ st'.size
    pub stays : (a : ℕ) → a < st.size → st'.objects a ≡ st.objects a
    pub clones :
        (p q : ℕ)
        → IsCopy added p q
        → (st.size ≤ q) × (q < st'.size) × IsClone st'.visited p (st'.objects q)

  pub Grows-refl : (st : State fl.F) → Grows st st
  Grows-refl st = record {
    added = [];
    visited = refl;
    grown = omega arith;
    stays = λ a l. refl;
    clones = λ p q c. absurd (c);
  }

  pub Grows-trans : {r s t : State fl.F} → Grows r s → Grows s t → Grows r t
  Grows-trans {r = r} {s = s} {t = t} g k = record {
    added = k.added ++ g.added;
    visited =
        k.visited
        ∙ ap (λ es. k.added ++ es) g.visited
        ∙ sym (append_assoc k.added g.added r.visited);
    grown = omega (arith, g.grown, k.grown);
    stays = λ a l. k.stays a (omega (arith, l, g.grown)) ∙ g.stays a l;
    clones = λ p q c. elim (IsCopy-append k.added g.added p q c) [
      | inl d ↦ let (l, u, o) = k.clones p q d in (omega (arith, l, g.grown), u, o)
      | inr d ↦ let (l, u, o) = g.clones p q d in (l, omega (arith, u, k.grown), later p q u o)
    ];
  }
    where
      later :
          (p q : ℕ)
          → q < s.size
          → IsClone s.visited p (s.objects q)
          → IsClone t.visited p (t.objects q)
      later p q u o =
          rw (k.stays q u, k.visited)
            (o.0, Copies-later k.added s.visited (h p).slots (s.objects q).slots o.1)
