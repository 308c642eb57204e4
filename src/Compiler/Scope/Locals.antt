-- ===== src/Compiler/Scope/Locals.antt =====
-- What a declaration does to the names in scope, and that a scope leaves nothing behind.
use polyloft_bvm.Prelude.{
  ℕ, suc, ◌%◌, ◌≤◌, ◌<◌, ◌≡◌, refl, sym, ◌∙◌, ap, true, false, List, [], ◌∷◌, ◌++◌, append-nil,
  append_assoc, some, Text, same_text, length, All, All-append, All-map, leb, if_case,
  if◌then◌else◌, arith,
}
use polyloft_bvm.Compiler.Scope.{
  Local, Scope, begin_scope, leave, end_scope, declare_local, prefer_later, resolve_local,
}

module _ {V : Type 0} where
  -- What is done to the scope between two moments: declarations, and scopes that are begun and ended.
  pub data Steps (nil_value : V) : Scope V → Scope V → Type 0 where
    start : {s : Scope V} → Steps nil_value s s
    declared :
        {s t : Scope V} (name typ : Text)
        → Steps nil_value s t
        → Steps nil_value s (declare_local nil_value name typ t).0
    nested :
        {s t u : Scope V}
        → Steps nil_value s t
        → Steps nil_value (begin_scope t) u
        → Steps nil_value s (end_scope u)

  -- `t` has the locals of `s` and more, of the depth of `s`.
  record Grown (s t : Scope V) : Type 0 where
    more : List (Local V)
    locals_are : t.locals ≡ s.locals ++ more
    deep : All (λ l. l.depth ≡ s.depth) more
    same_depth : t.depth ≡ s.depth

  leave_deep : (d : ℕ) (ys : List (Local V)) → All (λ l. l.depth ≡ d) ys → leave d ys ≡ []
  unfolding leave
  leave_deep d [] h = refl
  leave_deep d (y ∷ ys) h =
      let e : leb d y.depth ≡ true = ground (arith, h.0) in rw (leave_deep d ys h.1, e) refl

  leave_shallow :
      (d : ℕ) (xs ys : List (Local V))
      → All (λ l. l.depth < d) xs
      → All (λ l. l.depth ≡ d) ys
      → leave d (xs ++ ys) ≡ xs
  unfolding leave
  leave_shallow d [] ys h k = leave_deep d ys k
  leave_shallow d (x ∷ []) ys h k =
      let e : leb d x.depth ≡ false = ground (arith, h.0) in rw (leave_deep d ys k, e) refl
  leave_shallow d (x ∷ z ∷ xs) ys h k = rw (leave_shallow d (z ∷ xs) ys h.1 k) refl

  -- The local that a declaration makes.
  abbrev pub declared_as : V → Text → Text → Scope V → Local V
  declared_as nil_value name typ s = record {
    name = name;
    depth = s.depth;
    slot = length s.locals % 256;
    typ = typ;
    inline_const = false;
    const_value = nil_value;
  }

  -- No local is deeper than the scope.
  abbrev pub IsScope : Scope V → Type 0
  IsScope s = All (λ l. l.depth ≤ s.depth) s.locals

  within : (d : ℕ) (xs : List (Local V)) → All (λ l. l.depth ≤ d) xs → All (λ l. l.depth < suc d) xs
  within d xs h = All-map (λ l p. omega (arith, p)) xs h

  Grown-IsScope : (s t : Scope V) → IsScope s → Grown s t → IsScope t
  Grown-IsScope s t h g =
      rw (g.locals_are, g.same_depth)
        (All-append (λ l. l.depth ≤ s.depth) s.locals g.more h
          (All-map (λ l p. omega (arith, p)) g.more g.deep))

  begin_scope-IsScope : (t : Scope V) → IsScope t → IsScope (begin_scope t)
  unfolding begin_scope
  begin_scope-IsScope t h = All-map (λ l p. omega (arith, p)) t.locals h

  ended_locals :
      (t u : Scope V) → IsScope t → Grown (begin_scope t) u → (end_scope u).locals ≡ t.locals
  unfolding begin_scope end_scope
  ended_locals t u h k =
      rw (k.locals_are, k.same_depth)
        (leave_shallow (suc t.depth) t.locals k.more (within t.depth t.locals h) k.deep)

  ended-Grown :
      (s t u : Scope V) → IsScope s → Grown s t → Grown (begin_scope t) u → Grown s (end_scope u)
  unfolding begin_scope end_scope
  ended-Grown s t u h g k = record {
    more = g.more;
    locals_are = ended_locals t u (Grown-IsScope s t h g) k ∙ g.locals_are;
    deep = g.deep;
    same_depth = omega (arith, k.same_depth, g.same_depth);
  }

  Steps-Grown : (nil_value : V) (s t : Scope V) → IsScope s → Steps nil_value s t → Grown s t
  unfolding declare_local begin_scope
  Steps-Grown nil_value s _ h start = record {
    more = [];
    locals_are = sym (append-nil s.locals);
    deep = tt;
    same_depth = refl;
  }
  Steps-Grown nil_value s _ h (declared {t = t} name typ steps) =
      let g = Steps-Grown nil_value s t h steps in
      let l = declared_as nil_value name typ t in
      record {
        more = g.more ++ l ∷ [];
        locals_are = ap (λ ls. ls ++ l ∷ []) g.locals_are ∙ append_assoc s.locals g.more (l ∷ []);
        deep = All-append (λ k. k.depth ≡ s.depth) g.more (l ∷ []) g.deep (g.same_depth, tt);
        same_depth = g.same_depth;
      }
  Steps-Grown nil_value s _ h (nested {t = t} {u = u} steps inner) =
      let g = Steps-Grown nil_value s t h steps in
      ended-Grown s t u h g (
        Steps-Grown nil_value (begin_scope t) u (begin_scope-IsScope t (Grown-IsScope s t h g))
          inner)

  -- A scope leaves nothing behind: between `beginScope` and `endScope`, after declarations and scopes that
  -- were begun and ended in it, the locals and the depth are again those before, if no local was deeper
  -- than the scope.
  pub end_scope_lem :
      (nil_value : V) (s t : Scope V)
      → IsScope s
      → Steps nil_value (begin_scope s) t
      → ((end_scope t).locals ≡ s.locals) × ((end_scope t).depth ≡ s.depth)
  end_scope_lem nil_value s t h steps =
      let g =
        ended-Grown s s t h
          (record {
            more = [];
            locals_are = sym (append-nil s.locals);
            deep = tt;
            same_depth = refl;
          })
          (Steps-Grown nil_value (begin_scope s) t (begin_scope-IsScope s h) steps) in
      (
        ended_locals s t h
            (Steps-Grown nil_value (begin_scope s) t (begin_scope-IsScope s h) steps),
        g.same_depth,
      )

  resolve_local-append :
      (ls : List (Local V)) (l : Local V) (name : Text)
      → resolve_local (ls ++ l ∷ []) name
        ≡ (if same_text l.name name then some l else resolve_local ls name)
  unfolding resolve_local
  resolve_local-append [] l name = refl
  resolve_local-append (k ∷ ls) l name = rw (resolve_local-append ls l name) (
      if_case
        (λ o.
          prefer_later name k o
          ≡ (if same_text l.name name then some l else prefer_later name k (resolve_local ls name)))
        (same_text l.name name) (λ t. rw t refl) (λ f. rw f refl))

  -- After a declaration its name resolves to the new local, whose slot is the one that `declareLocal`
  -- returns, and every other name resolves as before.
  pub resolve_local-declare_local :
      (nil_value : V) (name typ other : Text) (s : Scope V)
      → (resolve_local (declare_local nil_value name typ s).0.locals other ≡ (
          if same_text name other
          then some (declared_as nil_value name typ s)
          else resolve_local s.locals other))
        × ((declare_local nil_value name typ s).1 ≡ (declared_as nil_value name typ s).slot)
  unfolding declare_local
  resolve_local-declare_local nil_value name typ other s =
      (resolve_local-append s.locals (declared_as nil_value name typ s) other, refl)
