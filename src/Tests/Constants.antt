-- ===== src/Tests/Constants.antt =====
-- The constants of a method, encoded and decoded.
use polyloft_bvm.Prelude.{ℕ, ◌≡◌, refl, true, List, [], ◌∷◌, some, length, All, same_text, arith}
use polyloft_bvm.Token.{codes}
use polyloft_bvm.Value.Codec.{Constant, nil, int64, text, boolean, function}
use polyloft_bvm.ClassFile.Pool.{
  new_pool, pool_int32, pool_int64, pool_string, pool_utf8, add, added,
}
use polyloft_bvm.ClassFile.Method.{EncodedConstant}
use polyloft_bvm.ClassFile.Constants.{encode_constants}
use polyloft_bvm.ClassFile.Constants.RoundTrip.{
  FitsConstant, pool_after, AllDecode, decode_constant-encode_constants,
}

abbrev same : ℕ → ℕ
same i = i

abbrev some_constants : List (Constant ℕ ℕ)
some_constants = int64 7 ∷ text (codes "a") ∷ boolean true ∷ nil ∷ int64 7 ∷ function 2 ∷ []

places : length (pool_after same same same same some_constants new_pool).entries ≡ 5
unfolding pool_int32 pool_int64 pool_string pool_utf8 add added same_text
places = refl

constants-Fit : All (FitsConstant same same same same) some_constants
constants-Fit = (omega arith, (omega arith, (tt, (tt, (omega arith, (refl, tt))))))

decode_constant-encode_constants_example :
    (ks : List EncodedConstant) × (encode_constants same same some_constants new_pool
      ≡ some (ks, pool_after same same same same some_constants new_pool))
    × AllDecode same same same same
        (pool_after same same same same some_constants new_pool).entries
        ks
        some_constants
decode_constant-encode_constants_example =
    decode_constant-encode_constants same same same same some_constants constants-Fit
      (omega (arith, places))
