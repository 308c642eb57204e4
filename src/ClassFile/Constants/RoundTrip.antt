-- ===== src/ClassFile/Constants/RoundTrip.antt =====
-- The constants of a method through the constant pool.
use polyloft_bvm.Prelude.{
  ℕ, ◌^◌, ◌<◌, ◌≤◌, ◌≡◌, refl, ap, ◌∙◌, true, false, List, [], ◌∷◌, ◌++◌, append_assoc, append-nil,
  some, length, All, if◌then◌else◌, arith,
}
use polyloft_bvm.Prelude.Word.{IsU32, IsU64}
use polyloft_bvm.Value.Codec.{
  Constant, nil, int64, float64, text, rune, boolean, function, class, other,
}
use polyloft_bvm.ClassFile.Wire.Reads.{Short16}
use polyloft_bvm.ClassFile.Pool.{Entry, Pool, new_pool}
use polyloft_bvm.ClassFile.Pool.Requests
use polyloft_bvm.ClassFile.Pool.Requests.{
  Request, request, FitsRequest, Resolves, At-Resolves, At_grows,
}
use polyloft_bvm.ClassFile.Pool.Builder.{IsPool, Answered, new_pool-IsPool}
use polyloft_bvm.ClassFile.Pool.Answers.{request-Answered}
use polyloft_bvm.ClassFile.Pool.RoundTrip.{requests, requests_grow}
use polyloft_bvm.ClassFile.Method.{EncodedConstant}
use polyloft_bvm.ClassFile.Constants.{
  const_nil, const_int64, const_float64, const_string, const_rune, const_bool, const_function_ref,
  const_class_ref, in_pool, in_module, encode_constant, encode_constants, decode_constant,
}

module _ {F K : Type 0} (function_index : F → ℕ) (class_index : K → ℕ) (function_of : ℕ → F)
    (class_of : ℕ → K) where
  -- What the pool holds of a constant; functions and classes are those of the module.
  abbrev pub FitsConstant : Constant F K → Type 0
  FitsConstant (int64 w) = IsU64 w
  FitsConstant (float64 w) = IsU64 w
  FitsConstant (text v) = Short16 v
  FitsConstant (rune w) = IsU32 w
  FitsConstant (function f) = function_of (function_index f) ≡ f
  FitsConstant (class k) = class_of (class_index k) ≡ k
  FitsConstant other = ⊥
  FitsConstant _ = Unit {0}

  -- What a constant asks of the pool.
  abbrev pub asked : Constant F K → List Request
  asked (int64 w) = Requests.int64 w ∷ []
  asked (float64 w) = Requests.float64 w ∷ []
  asked (text v) = Requests.string v ∷ []
  asked (rune w) = Requests.int32 w ∷ []
  asked (boolean b) = Requests.int32 (if b then 1 else 0) ∷ []
  asked _ = []

  abbrev pub pool_after : List (Constant F K) → Pool → Pool
  pool_after [] cp = cp
  pool_after (c ∷ cs) cp = pool_after cs (requests (asked c) cp).1

  -- A constant that is encoded: in the pool as it grows, it is decoded.
  record Encoded (c : Constant F K) (cp after : Pool) : Type 0 where
    code : EncodedConstant
    ends : encode_constant function_index class_index c cp ≡ some (code, after)
    good : IsPool after
    more : List Entry
    grown : after.entries ≡ cp.entries ++ more
    decodes :
        (later : List Entry)
        → decode_constant function_of class_of (after.entries ++ later) code ≡ c

  resolves :
      (q : Request) (cp : Pool) (later : List Entry)
      → Answered cp q (request q cp)
      → Resolves ((request q cp).1.entries ++ later) q (request q cp).0
  resolves q cp later a =
      At-Resolves _ q _ (At_grows (request q cp).1.entries later q (request q cp).0 a.at)

  -- A constant with an index of the pool.
  pooled :
      (c : Constant F K) (q : Request) (kind : ℕ) (cp : Pool)
      → Answered cp q (request q cp)
      → encode_constant function_index class_index c cp ≡ in_pool kind (request q cp)
      → ((es : List Entry)
          → Resolves es q (request q cp).0
          → decode_constant function_of class_of es
              (record { kind = kind; cp_index = (request q cp).0; ref_index = 0 })
            ≡ c)
      → Encoded c cp (request q cp).1
  pooled c q kind cp a e d = record {
    code = record { kind = kind; cp_index = (request q cp).0; ref_index = 0 };
    ends = e;
    good = a.pool;
    more = a.more;
    grown = a.grown;
    decodes = λ later. d ((request q cp).1.entries ++ later) (resolves q cp later a);
  }

  -- One with an index of the module.
  referred :
      (c : Constant F K) (kind i : ℕ) (cp : Pool)
      → IsPool cp
      → encode_constant function_index class_index c cp ≡ in_module kind i cp
      → ((es : List Entry)
          → decode_constant function_of class_of es
              (record { kind = kind; cp_index = 0; ref_index = i })
            ≡ c)
      → Encoded c cp cp
  referred c kind i cp p e d = record {
    code = record { kind = kind; cp_index = 0; ref_index = i };
    ends = e;
    good = p;
    more = [];
    grown = rw append-nil refl;
    decodes = λ later. d (cp.entries ++ later);
  }

  encoded :
      (c : Constant F K) (cp : Pool)
      → IsPool cp
      → FitsConstant c
      → length (requests (asked c) cp).1.entries < 2 ^ 16
      → Encoded c cp (requests (asked c) cp).1
  unfolding encode_constant decode_constant
  encoded nil cp p h b = referred nil const_nil 0 cp p refl (λ es. refl)
  encoded (int64 w) cp p h b =
      pooled (int64 w) (Requests.int64 w) const_int64 cp
        (request-Answered (Requests.int64 w) cp p h b) refl (λ es r. rw r refl)
  encoded (float64 w) cp p h b =
      pooled (float64 w) (Requests.float64 w) const_float64 cp
        (request-Answered (Requests.float64 w) cp p h b) refl (λ es r. rw r refl)
  encoded (text v) cp p h b =
      pooled (text v) (Requests.string v) const_string cp
        (request-Answered (Requests.string v) cp p h b) refl (λ es r. rw r refl)
  encoded (rune w) cp p h b =
      pooled (rune w) (Requests.int32 w) const_rune cp
        (request-Answered (Requests.int32 w) cp p h b) refl (λ es r. rw r refl)
  encoded (boolean true) cp p h b =
      pooled (boolean true) (Requests.int32 1) const_bool cp
        (request-Answered (Requests.int32 1) cp p (omega arith) b) refl (λ es r. rw r refl)
  encoded (boolean false) cp p h b =
      pooled (boolean false) (Requests.int32 0) const_bool cp
        (request-Answered (Requests.int32 0) cp p (omega arith) b) refl (λ es r. rw r refl)
  encoded (function f) cp p h b =
      referred (function f) const_function_ref (function_index f) cp p refl (λ es. rw h refl)
  encoded (class k) cp p h b =
      referred (class k) const_class_ref (class_index k) cp p refl (λ es. rw h refl)
  encoded other cp p h b = absurd (h)

  abbrev pub AllDecode : List Entry → List EncodedConstant → List (Constant F K) → Type 0
  AllDecode es [] [] = Unit {0}
  AllDecode es (k ∷ ks) (c ∷ cs) =
      (decode_constant function_of class_of es k ≡ c) × AllDecode es ks cs
  AllDecode es _ _ = ⊥

  record EncodedAll (cs : List (Constant F K)) (cp : Pool) : Type 0 where
    codes : List EncodedConstant
    ends : encode_constants function_index class_index cs cp ≡ some (codes, pool_after cs cp)
    more : List Entry
    grown : (pool_after cs cp).entries ≡ cp.entries ++ more
    decode : AllDecode (pool_after cs cp).entries codes cs

  pool_after_grows :
      (cs : List (Constant F K)) (cp : Pool) → length cp.entries ≤ length (pool_after cs cp).entries
  pool_after_grows [] cp = omega arith
  pool_after_grows (c ∷ cs) cp =
      omega (arith, requests_grow (asked c) cp, pool_after_grows cs (requests (asked c) cp).1)

  all_encoded :
      (cs : List (Constant F K)) (cp : Pool)
      → IsPool cp
      → All FitsConstant cs
      → length (pool_after cs cp).entries < 2 ^ 16
      → EncodedAll cs cp
  unfolding encode_constants
  all_encoded [] cp p h b = record {
    codes = [];
    ends = refl;
    more = [];
    grown = rw append-nil refl;
    decode = tt;
  }
  all_encoded (c ∷ cs) cp p h b =
      let one =
        encoded c cp p h.0 (omega (arith, b, pool_after_grows cs (requests (asked c) cp).1)) in
      let rest = all_encoded cs (requests (asked c) cp).1 one.good h.1 b in
      record {
        codes = one.code ∷ rest.codes;
        ends = rw (one.ends, rest.ends) refl;
        more = one.more ++ rest.more;
        grown =
            rest.grown
            ∙ ap (λ es. es ++ rest.more) one.grown
            ∙ append_assoc cp.entries one.more rest.more;
        decode = (rw rest.grown (one.decodes rest.more), rest.decode);
      }

  -- `encodeConstant` encodes all the constants of a method, on a new pool that stays below 2^16 places, and
  -- in that pool `decodeConstant` gives them back, if the texts are below 2^16 bytes, and the tables
  -- lead from the index of each function and class to it.
  pub decode_constant-encode_constants :
      (cs : List (Constant F K))
      → All FitsConstant cs
      → length (pool_after cs new_pool).entries < 2 ^ 16
      → (codes : List EncodedConstant) × (encode_constants function_index class_index cs new_pool
          ≡ some (codes, pool_after cs new_pool))
        × AllDecode (pool_after cs new_pool).entries codes cs
  decode_constant-encode_constants cs h b =
      let all = all_encoded cs new_pool new_pool-IsPool h b in (all.codes, all.ends, all.decode)
