-- ===== src/ClassFile/Constants.antt =====
-- internal/classfile/module_codec.go: the constants of a method, `encodeConstant` and `decodeConstant`. The
-- index of a function or a class in the module, and the function or class of an index, are arguments;
-- they are 0 and nil where the maps of the source have no entry.
pub mod RoundTrip
use polyloft_bvm.Prelude.{
  ℕ, ◌==◌, Bool, true, false, not, List, [], ◌∷◌, Option, none, some, if◌then◌else◌,
}
use polyloft_bvm.Binary.{Result, ok, err}
use polyloft_bvm.Value.FastMethod.{◌>>=◌}
use polyloft_bvm.Value.Codec.{
  Constant, nil, int64, float64, text, rune, boolean, function, class, other,
}
use polyloft_bvm.ClassFile.Pool.{
  Entry, Pool, pool_int32, pool_int64, pool_float64, pool_string, read_pool_int32, read_pool_int64,
  read_pool_float64, read_pool_string,
}
use polyloft_bvm.ClassFile.Method.{EncodedConstant}

-- `iota` counts the lines of the whole block of constants.
abbrev pub const_nil : ℕ
const_nil = 10

abbrev pub const_int64 : ℕ
const_int64 = 11

abbrev pub const_float64 : ℕ
const_float64 = 12

abbrev pub const_string : ℕ
const_string = 13

abbrev pub const_rune : ℕ
const_rune = 14

abbrev pub const_bool : ℕ
const_bool = 15

abbrev pub const_function_ref : ℕ
const_function_ref = 16

abbrev pub const_class_ref : ℕ
const_class_ref = 17

-- A constant with an index of the pool, or with one of the module.
abbrev pub in_pool : ℕ → ℕ × Pool → Option (EncodedConstant × Pool)
in_pool kind r = some (record { kind = kind; cp_index = r.0; ref_index = 0 }, r.1)

abbrev pub in_module : ℕ → ℕ → Pool → Option (EncodedConstant × Pool)
in_module kind i cp = some (record { kind = kind; cp_index = 0; ref_index = i }, cp)

module _ {F K : Type 0} (function_index : F → ℕ) (class_index : K → ℕ) where
  unfoldable pub encode_constant : Constant F K → Pool → Option (EncodedConstant × Pool)
  encode_constant nil cp = in_module const_nil 0 cp
  encode_constant (int64 w) cp = in_pool const_int64 (pool_int64 w cp)
  encode_constant (float64 w) cp = in_pool const_float64 (pool_float64 w cp)
  encode_constant (text v) cp = in_pool const_string (pool_string v cp)
  encode_constant (rune w) cp = in_pool const_rune (pool_int32 w cp)
  encode_constant (boolean b) cp = in_pool const_bool (pool_int32 (if b then 1 else 0) cp)
  encode_constant (function f) cp = in_module const_function_ref (function_index f) cp
  encode_constant (class k) cp = in_module const_class_ref (class_index k) cp
  encode_constant other cp = none

  -- The loop of `encodeMethod`.
  unfoldable pub encode_constants :
      List (Constant F K) → Pool → Option (List EncodedConstant × Pool)
  encode_constants [] cp = some ([], cp)
  encode_constants (c ∷ cs) cp = do
    (e, cp1) ← encode_constant c cp
    (es, cp2) ← encode_constants cs cp1
    some (e ∷ es, cp2)

module _ {F K : Type 0} (function_of : ℕ → F) (class_of : ℕ → K) where
  -- The value that was read, or nil.
  abbrev pub or_nil : Result ℕ → (ℕ → Constant F K) → Constant F K
  or_nil (ok v) f = f v
  or_nil (err p) f = nil

  abbrev pub text_or_nil : Result (List ℕ) → Constant F K
  text_or_nil (ok v) = text v
  text_or_nil (err p) = nil

  unfoldable pub decode_constant : List Entry → EncodedConstant → Constant F K
  decode_constant es k =
      if k.kind == const_nil
      then nil
      else if k.kind == const_int64
      then or_nil (read_pool_int64 es k.cp_index) int64
      else if k.kind == const_float64
      then or_nil (read_pool_float64 es k.cp_index) float64
      else if k.kind == const_string
      then text_or_nil (read_pool_string es k.cp_index)
      else if k.kind == const_rune
      then or_nil (read_pool_int32 es k.cp_index) rune
      else if k.kind == const_bool
      then or_nil (read_pool_int32 es k.cp_index) (λ v. boolean (not (v == 0)))
      else if k.kind == const_function_ref
      then function (function_of k.ref_index)
      else if k.kind == const_class_ref
      then class (class_of k.ref_index)
      else nil
