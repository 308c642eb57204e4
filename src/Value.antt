-- ===== src/Value.antt =====
-- internal/value/value.go: runtime values and their constructors. The children model arrays, fast
-- method plans, the lookups of classes, and the binary codec.
pub mod Codec
pub mod Class
pub mod Array
pub mod FastMethod
pub mod DeepCopy
use polyloft_bvm.Prelude.{
  ℕ, ◌+◌, ◌-◌, ◌*◌, ◌%◌, ◌^◌, Bool, true, false, Option, none, some, Text, [], if◌then◌else◌,
}

-- Go's float64, which the model takes as a parameter. `of_int` and `to_int` are the conversions from and
-- to int64, as 64-bit patterns.
pub record Float64 : Type 1 where
  pub F : Type 0
  pub zero_float : F
  pub of_int : ℕ → F
  pub to_int : F → ℕ
  pub add : F → F → F
  pub sub : F → F → F
  pub mul : F → F → F
  pub div : F → F → F
  pub neg : F → F
  pub same : F → F → Bool

pub data NumberKind : Type 0 where
  number_float number_int : NumberKind

pub data Kind : Type 0 where
  nil number boolean char string object : Kind

-- `Value`; `O` is the type of the objects that `Object` may hold, and none is Go's nil.
pub record Value (F O : Type 0) : Type 0 where
  pub kind : Kind
  pub number_kind : NumberKind
  pub bool : Bool
  pub num : F
  pub int : ℕ
  pub str : Text
  pub obj : Option O

module _ (fl : Float64) {O : Type 0} where
  abbrev pub nil_value : Value fl.F O
  nil_value = record {
    kind = nil;
    number_kind = number_float;
    bool = false;
    num = fl.zero_float;
    int = 0;
    str = [];
    obj = none;
  }

  abbrev pub int_value : ℕ → Value fl.F O
  int_value v = record nil_value {
    kind = number;
    num = fl.of_int v;
    int = v;
    number_kind = number_int;
  }

  abbrev pub float_value : fl.F → Value fl.F O
  float_value v = record nil_value {
    kind = number;
    num = v;
    int = fl.to_int v;
    number_kind = number_float;
  }

  abbrev pub bool_value : Bool → Value fl.F O
  bool_value v = record nil_value { kind = boolean; bool = v }

abbrev pub is_number : {F O : Type 0} → Value F O → Bool
is_number v = elim v.kind [ number ↦ true | _ ↦ false ]

abbrev pub is_int : {F O : Type 0} → Value F O → Bool
is_int v = elim v.number_kind [ number_int ↦ true | number_float ↦ false ]

abbrev pub is_bool : {F O : Type 0} → Value F O → Bool
is_bool v = elim v.kind [ boolean ↦ true | _ ↦ false ]
