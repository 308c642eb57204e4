-- ===== src/Tests/Scopes.antt =====
-- Name resolution on concrete scopes.
use polyloft_bvm.Prelude.{ℕ, ◌≡◌, refl, false, true, [], ◌∷◌, some, same_text, if◌then◌else◌, arith}
use polyloft_bvm.Token.{codes}
use polyloft_bvm.Compiler.Scope.{
  Local, Scope, begin_scope, end_scope, declare_local, resolve_local, resolve_upvalue_from,
  local_at, local_type, set_local_inline_const, local_inline_const,
}
use polyloft_bvm.Compiler.Scope.Locals.{
  start, declared, declared_as, end_scope_lem, resolve_local-declare_local,
}
use polyloft_bvm.Compiler.Scope.Slots.{local_inline_const-set_local_inline_const}
use polyloft_bvm.Compiler.Scope.Upvalues.{Resolved, resolve_upvalue_from-Resolved}

abbrev local_x : Local ℕ
local_x = record {
  name = codes "x";
  depth = 1;
  slot = 0;
  typ = codes "Int";
  inline_const = false;
  const_value = 0;
}

-- A function with one local, and two functions in it.
abbrev outermost : Scope ℕ
outermost = record { locals = local_x ∷ []; upvalues = []; depth = 1; max_locals = 1 }

abbrev inner : Scope ℕ
inner = record { locals = []; upvalues = []; depth = 1; max_locals = 0 }

resolve_upvalue_from-Resolved_example :
    Resolved
      (inner ∷ inner ∷ outermost ∷ [])
      (codes "x")
      (resolve_upvalue_from (inner ∷ inner ∷ outermost ∷ []) (codes "x"))
resolve_upvalue_from-Resolved_example =
    resolve_upvalue_from-Resolved (inner ∷ inner ∷ outermost ∷ []) (codes "x")
      (omega arith, (omega arith, (omega arith, tt)))

abbrev with_y : Scope ℕ
with_y = (declare_local 0 (codes "y") [] (begin_scope outermost)).0

end_scope_lem_example :
    ((end_scope with_y).locals ≡ outermost.locals) × ((end_scope with_y).depth ≡ outermost.depth)
end_scope_lem_example =
    end_scope_lem 0 outermost with_y (omega arith, tt) (declared (codes "y") [] start)

resolve_local-declare_local_example :
    (resolve_local (declare_local 0 (codes "y") [] outermost).0.locals (codes "x") ≡ (
      if same_text (codes "y") (codes "x")
      then some (declared_as 0 (codes "y") [] outermost)
      else resolve_local outermost.locals (codes "x")))
    × ((declare_local 0 (codes "y") [] outermost).1 ≡ (declared_as 0 (codes "y") [] outermost).slot)
resolve_local-declare_local_example =
    resolve_local-declare_local 0 (codes "y") [] (codes "x") outermost

two_locals : local_at with_y.locals 1 ≡ some (declared_as 0 (codes "y") [] (begin_scope outermost))
unfolding local_at declare_local begin_scope
two_locals = refl

local_inline_const-set_local_inline_const_example :
    (local_inline_const 0 (set_local_inline_const 1 7 with_y) 1 ≡ (7, true))
    × (local_type (set_local_inline_const 1 7 with_y) 1 ≡ [])
    × (local_inline_const 0 (set_local_inline_const 1 7 with_y) 0 ≡ local_inline_const 0 with_y 0)
    × (local_type (set_local_inline_const 1 7 with_y) 0 ≡ local_type with_y 0)
local_inline_const-set_local_inline_const_example =
    local_inline_const-set_local_inline_const 0 7 1 0
      (declared_as 0 (codes "y") [] (begin_scope outermost)) with_y two_locals
      (λ e. omega (arith, e))
