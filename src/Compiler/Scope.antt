-- ===== src/Compiler/Scope.antt =====
-- internal/compiler/compiler.go: the locals and upvalues of the function that is compiled, and of the
-- functions around it. The chain of `parent` pointers is a list of states, the innermost first.
pub mod Locals
pub mod Slots
pub mod Upvalues
use polyloft_bvm.Prelude.{
  ℕ, suc, ◌+◌, ◌-◌, ◌%◌, Bool, true, false, ◌&&◌, List, [], ◌∷◌, ◌++◌, Option, none, some, Text,
  same_text, length, max, ◌==◌, leb, if◌then◌else◌,
}

-- `local`; `V` is the type of the constant values.
pub record Local (V : Type 0) : Type 0 where
  pub name : Text
  pub depth : ℕ
  pub slot : ℕ
  pub typ : Text
  pub inline_const : Bool
  pub const_value : V

pub record UpvalueRef (V : Type 0) : Type 0 where
  pub index : ℕ
  pub is_local : Bool
  pub typ : Text
  pub inline_const : Bool
  pub const_value : V

-- The fields of `state` that name resolution uses; `max_locals` is that of the function.
pub record Scope (V : Type 0) : Type 0 where
  pub locals : List (Local V)
  pub upvalues : List (UpvalueRef V)
  pub depth : ℕ
  pub max_locals : ℕ

-- `isLocal == isLocal` of two Booleans.
abbrev pub same_flag : Bool → Bool → Bool
same_flag true b = b
same_flag false true = false
same_flag false false = true

module _ {V : Type 0} where
  unfoldable pub begin_scope : Scope V → Scope V
  begin_scope s = record s { depth = suc s.depth }

  abbrev pub keep_local : ℕ → Local V → List (Local V) → List (Local V)
  keep_local d l [] = if leb d l.depth then [] else l ∷ []
  keep_local d l (k ∷ ks) = l ∷ k ∷ ks

  -- The locals without the last ones of depth `d` or more.
  unfoldable pub leave : ℕ → List (Local V) → List (Local V)
  leave d [] = []
  leave d (l ∷ ls) = keep_local d l (leave d ls)

  unfoldable pub end_scope : Scope V → Scope V
  end_scope s = record s { locals = leave s.depth s.locals; depth = s.depth - 1 }

  abbrev pub add_local : V → Text → Text → ℕ → Scope V → Scope V
  add_local nil_value name typ depth s =
      let ls : List (Local V) =
        s.locals
        ++ record {
          name = name;
          depth = depth;
          slot = length s.locals % 256;
          typ = typ;
          inline_const = false;
          const_value = nil_value;
        }
          ∷ [] in
      record s { locals = ls; max_locals = max s.max_locals (length ls) }

  -- `declareLocal`, at the state's depth; `nil_value` is Go's zero `Value`.
  unfoldable pub declare_local : V → Text → Text → Scope V → Scope V × ℕ
  declare_local nil_value name typ s =
      (add_local nil_value name typ s.depth s, length s.locals % 256)

  unfoldable pub declare_param : V → Text → Text → Scope V → Scope V
  declare_param nil_value name typ s = add_local nil_value name typ 1 s

  abbrev pub prefer_later : Text → Local V → Option (Local V) → Option (Local V)
  prefer_later name l none = if same_text l.name name then some l else none
  prefer_later name l (some k) = some k

  -- `resolveLocal`: the last local of the name.
  unfoldable pub resolve_local : List (Local V) → Text → Option (Local V)
  resolve_local [] name = none
  resolve_local (l ∷ ls) name = prefer_later name l (resolve_local ls name)

  -- The search of `addUpvalue`, from a position on.
  unfoldable pub find_upvalue : List (UpvalueRef V) → ℕ → ℕ → Bool → Option ℕ
  find_upvalue [] i slot is_local = none
  find_upvalue (u ∷ us) i slot is_local =
      let rest = find_upvalue us (suc i) slot is_local in
      if (u.index == slot) && same_flag u.is_local is_local then some i else rest

  -- `addUpvalue` for a local `l`, which gives the type and the constant.
  unfoldable pub add_upvalue : Scope V → ℕ → Bool → Local V → Scope V × ℕ
  add_upvalue s slot is_local l = elim (find_upvalue s.upvalues 0 slot is_local) [
    | some i ↦ (s, i % 256)
    | none ↦ (
      record s {
        upvalues =
            s.upvalues
            ++ record {
              index = slot;
              is_local = is_local;
              typ = l.typ;
              inline_const = l.inline_const;
              const_value = l.const_value;
            }
              ∷ [];
      },
      length s.upvalues % 256,
    )
  ]

  abbrev pub add_to :
      Scope V → Bool → ℕ → Local V → List (Scope V) → List (Scope V) × Option (ℕ × Local V)
  add_to s is_local slot l rest =
      let (s', i) = add_upvalue s slot is_local l in (s' ∷ rest, some (i, l))

  abbrev pub add_outer :
      Scope V → List (Scope V) × Option (ℕ × Local V) → List (Scope V) × Option (ℕ × Local V)
  add_outer s (rest, none) = (s ∷ rest, none)
  add_outer s (rest, some (i, l)) = add_to s false i l rest

  -- `resolveUpvalueFrom`, with the states that it leaves. It returns the index and the local that gives
  -- the type and the constant.
  unfoldable pub resolve_upvalue_from :
      List (Scope V) → Text → List (Scope V) × Option (ℕ × Local V)
  resolve_upvalue_from [] name = ([], none)
  resolve_upvalue_from (s ∷ []) name = (s ∷ [], none)
  resolve_upvalue_from (s ∷ p ∷ ps) name =
      let outer = resolve_upvalue_from (p ∷ ps) name in
      elim (resolve_local p.locals name) [
        | some l ↦ add_to s true l.slot l (p ∷ ps)
        | none ↦ add_outer s outer
      ]

  -- The first local of a slot, which the next four look for.
  unfoldable pub local_at : List (Local V) → ℕ → Option (Local V)
  local_at [] slot = none
  local_at (l ∷ ls) slot = let rest = local_at ls slot in if l.slot == slot then some l else rest

  unfoldable pub update_at : (Local V → Local V) → ℕ → List (Local V) → List (Local V)
  update_at f slot [] = []
  update_at f slot (l ∷ ls) =
      let rest = update_at f slot ls in if l.slot == slot then f l ∷ ls else l ∷ rest

  unfoldable pub local_type : Scope V → ℕ → Text
  local_type s slot = elim (local_at s.locals slot) [ some l ↦ l.typ | none ↦ [] ]

  unfoldable pub set_local_type : ℕ → Text → Scope V → Scope V
  set_local_type slot [] s = s
  set_local_type slot (c ∷ cs) s = record s {
    locals = update_at (λ l. record l { typ = c ∷ cs }) slot s.locals;
  }

  unfoldable pub set_local_inline_const : ℕ → V → Scope V → Scope V
  set_local_inline_const slot v s = record s {
    locals = update_at (λ l. record l { inline_const = true; const_value = v }) slot s.locals;
  }

  unfoldable pub local_inline_const : V → Scope V → ℕ → V × Bool
  local_inline_const nil_value s slot = elim (local_at s.locals slot) [
    | some l ↦ (l.const_value, l.inline_const)
    | none ↦ (nil_value, false)
  ]
