-- ===== src/Compiler/Scope/Slots.antt =====
-- Reading and writing what is known of the local in a slot.
use polyloft_bvm.Prelude.{
  ℕ, ◌≡◌, ◌≢◌, refl, ◌∙◌, ap, true, false, List, [], ◌∷◌, some, ◌==◌, if◌then◌else◌, if_case, arith,
}
use mathlib.Core.Option
use polyloft_bvm.Compiler.Scope.{
  Local, Scope, local_at, update_at, local_type, set_local_inline_const, local_inline_const,
}

module _ {V : Type 0} where
  local_at-update_at :
      (f : Local V → Local V) (slot : ℕ) (ls : List (Local V))
      → ((l : Local V) → (f l).slot ≡ l.slot)
      → local_at (update_at f slot ls) slot ≡ Option.map f (local_at ls slot)
  unfolding local_at update_at
  local_at-update_at f slot [] h = refl
  local_at-update_at f slot (l ∷ ls) h =
      if_case
        (λ r. local_at r slot ≡ Option.map f (if l.slot == slot then some l else local_at ls slot))
        (l.slot == slot)
        (λ t. let q : ((f l).slot == slot) ≡ true = ap (λ k. k == slot) (h l) ∙ t in rw (q, t) refl)
        (λ t. rw t (local_at-update_at f slot ls h))

  local_at-update_at_other :
      (f : Local V → Local V) (slot other : ℕ) (ls : List (Local V))
      → ((l : Local V) → (f l).slot ≡ l.slot)
      → slot ≢ other
      → local_at (update_at f slot ls) other ≡ local_at ls other
  unfolding local_at update_at
  local_at-update_at_other f slot other [] h n = refl
  local_at-update_at_other f slot other (l ∷ ls) h n =
      if_case (λ r. local_at r other ≡ (if l.slot == other then some l else local_at ls other))
        (l.slot == slot)
        (λ t. let q : (l.slot == other) ≡ false = ground (arith, n, t) in rw (h l, q) refl)
        (λ t. rw (local_at-update_at_other f slot other ls h n) refl)

  -- On a slot that holds a local, `localInlineConst` gives back the constant that `setLocalInlineConst`
  -- was given, and the type stays; of another slot both are unchanged.
  pub local_inline_const-set_local_inline_const :
      (nil_value v : V) (slot other : ℕ) (l : Local V) (s : Scope V)
      → local_at s.locals slot ≡ some l
      → slot ≢ other
      → (local_inline_const nil_value (set_local_inline_const slot v s) slot ≡ (v, true))
        × (local_type (set_local_inline_const slot v s) slot ≡ l.typ)
        × (local_inline_const nil_value (set_local_inline_const slot v s) other
            ≡ local_inline_const nil_value s other)
        × (local_type (set_local_inline_const slot v s) other ≡ local_type s other)
  unfolding set_local_inline_const local_inline_const local_type
  local_inline_const-set_local_inline_const nil_value v slot other l s e n =
      let f : Local V → Local V = λ k. record k { inline_const = true; const_value = v } in
      let here : local_at (update_at f slot s.locals) slot ≡ some (f l) =
        local_at-update_at f slot s.locals (λ k. refl) ∙ rw e refl in
      let there = local_at-update_at_other f slot other s.locals (λ k. refl) n in
      (
        rw (local_inline_const, here) refl,
        rw (local_type, here) refl,
        rw (local_inline_const, there) refl,
        rw (local_type, there) refl,
      )
