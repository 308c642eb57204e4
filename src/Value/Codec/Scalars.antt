-- ===== src/Value/Codec/Scalars.antt =====
-- `DecodeConstant` reads back the constants that are no pointers.
use polyloft_bvm.Prelude.{ℕ, refl, true, false, ◌==◌, arith}
use polyloft_bvm.Prelude.Word.{IsU32, IsU64}
use polyloft_bvm.Binary.{Writer, Reader}
use polyloft_bvm.Binary.Reads.{
  Outcome, Reads, Reads-seq, Reads-last, Reads-done, Reads-byte, Reads-word, Reads-u32,
}
use polyloft_bvm.Bytecode.RoundTrip.{Reads-string, Short}
use polyloft_bvm.Value.Codec.{
  Constant, Decoded, nil, int64, float64, text, rune, boolean, function, class, other, EncoderState,
  DecoderState, encode_constant, decode_constant, decode_tagged,
}

-- A constant that is no pointer and that the format can hold.
abbrev pub IsScalar : {F K : Type 0} → Constant F K → Type 0
IsScalar nil = Unit
IsScalar (int64 v) = IsU64 v
IsScalar (float64 v) = IsU64 v
IsScalar (text v) = Short v
IsScalar (rune v) = IsU32 v
IsScalar (boolean v) = Unit
IsScalar (function p) = ⊥
IsScalar (class p) = ⊥
IsScalar other = ⊥

-- The same constant to the decoder.
abbrev pub decoded : {F : Type 0} → Constant ℕ ℕ → Decoded F
decoded (int64 v) = int64 v
decoded (float64 v) = float64 v
decoded (text v) = text v
decoded (rune v) = rune v
decoded (boolean v) = boolean v
decoded _ = nil

module _ {F : Type 0} (R : EncoderState → DecoderState F → Type 0)
    (write_fn write_class : ℕ → Writer EncoderState) (read_fn : Reader (DecoderState F) F)
    (read_class : ℕ → Reader (DecoderState F) (Unit {0})) where
  pub Reads-constant :
      (c : Constant ℕ ℕ)
      → IsScalar c
      → Reads R
          (encode_constant write_fn write_class c)
          (decode_constant read_fn read_class)
          (decoded c)
  unfolding encode_constant decode_constant decode_tagged
  Reads-constant nil h = Reads-done R _ refl (Reads-byte R 0)
  Reads-constant (int64 v) h =
      Reads-seq R _ (Reads-byte R 1) (Reads-last R (λ x. int64 x) (Reads-word R 8 v (omega arith)))
  Reads-constant (float64 v) h =
      Reads-seq R _ (Reads-byte R 2)
        (Reads-last R (λ x. float64 x) (Reads-word R 8 v (omega arith)))
  Reads-constant (text v) h =
      Reads-seq R _ (Reads-byte R 3) (Reads-last R (λ x. text x) (Reads-string R v h))
  Reads-constant (rune v) h =
      Reads-seq R _ (Reads-byte R 4) (Reads-last R (λ x. rune x) (Reads-u32 R v h))
  Reads-constant (boolean true) h =
      Reads-seq R _ (Reads-byte R 5) (Reads-last R (λ x. boolean (x == 1)) (Reads-byte R 1))
  Reads-constant (boolean false) h =
      Reads-seq R _ (Reads-byte R 5) (Reads-last R (λ x. boolean (x == 1)) (Reads-byte R 0))
  Reads-constant (function p) h = absurd h
  Reads-constant (class p) h = absurd h
  Reads-constant other h = absurd h

  -- From states of the two sides that correspond, `EncodeConstant` succeeds on every constant that is no
  -- pointer and that the format can hold, and `DecodeConstant` takes exactly the bytes written and returns
  -- the constant, with its type.
  pub decode_constant-encode_constant :
      (c : Constant ℕ ℕ) (s : EncoderState) (t : DecoderState F)
      → IsScalar c
      → R s t
      → Outcome R
          (encode_constant write_fn write_class c)
          (decode_constant read_fn read_class)
          (decoded c)
          s
          t
  decode_constant-encode_constant c s t h r = Reads-constant c h s t r
