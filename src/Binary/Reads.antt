-- ===== src/Binary/Reads.antt =====
-- What it means that a reader reads back what a writer wrote, and the rules for the combinators.
use polyloft_bvm.Prelude.{
  ℕ, zero, suc, ◌/◌, ◌%◌, ◌^◌, ◌<◌, ◌≡◌, refl, ap, ◌∙◌, Bool, true, false, List, [], ◌∷◌, ◌++◌,
  append_assoc, length, take_prefix, drop_prefix, length-append, All, arith, leb, not, ◌==◌,
}
use polyloft_bvm.Prelude.Word.{IsU32, FitsInt32, sign_extend32, sign_extend32_mod}
use polyloft_bvm.Binary.{
  ok, Bytes, Writer, Reader, ◌>>◌, ◌>>=◌, give, le_bytes, from_le, emit, write_byte, write_word,
  write_u32, write_bool, read_full, read_byte, read_word, read_u32, read_i32, read_bool, write_each,
  read_each,
}

seq_ok :
    {S : Type 0} (w v : Writer S) (s s' s'' : S) (bs cs : Bytes)
    → w s ≡ ok (bs, s')
    → v s' ≡ ok (cs, s'')
    → (w >> v) s ≡ ok (bs ++ cs, s'')
unfolding ◌>>◌
seq_ok w v s s' s'' bs cs p q = rw (p, ◌>>◌, q, ◌>>◌)

bind_ok {ℓ κ} :
    {T : Type 0} {A : Type ℓ} {B : Type κ} (r : Reader T A) (k : A → Reader T B) (a : A) (t t' : T)
    (bs bs' : Bytes)
    → r bs t ≡ ok (a, bs', t')
    → (r >>= k) bs t ≡ k a bs' t'
unfolding ◌>>=◌
bind_ok r k a t t' bs bs' e = rw (e, ◌>>=◌)

-- The states of the two sides correspond by `R`. Whatever follows is left in the stream.
module _ {S T : Type 0} (R : S → T → Type 0) where
  pub record Outcome {ℓ} {A : Type ℓ} (w : Writer S) (r : Reader T A) (a : A) (s : S) (t : T)
      : Type ℓ where
    pub bytes : Bytes
    pub after_write : S
    pub after_read : T
    pub related : R after_write after_read
    pub written : w s ≡ ok (bytes, after_write)
    pub read : (rest : Bytes) → r (bytes ++ rest) t ≡ ok (a, rest, after_read)

  -- The writer succeeds, and the reader takes exactly what it wrote and returns `a`.
  abbrev pub Reads {ℓ} : {A : Type ℓ} → Writer S → Reader T A → A → Type ℓ
  Reads w r a = (s : S) (t : T) → R s t → Outcome w r a s t

  module _ {ℓ κ} {A : Type ℓ} {B : Type κ} where
    pub Reads-seq :
        {w v : Writer S} {r : Reader T A} {a : A} {b : B} (k : A → Reader T B)
        → Reads w r a
        → Reads v (k a) b
        → Reads (w >> v) (r >>= k) b
    Reads-seq {w} {v} {r} {a} {b} k hw hv s t h =
        let o = hw s t h in
        let o' = hv o.after_write o.after_read o.related in
        record {
          bytes = o.bytes ++ o'.bytes;
          after_write = o'.after_write;
          after_read = o'.after_read;
          related = o'.related;
          written = seq_ok w v s o.after_write o'.after_write o.bytes o'.bytes o.written o'.written;
          read = λ rest. rw append_assoc (
              bind_ok r k a t o.after_read (o.bytes ++ (o'.bytes ++ rest)) (o'.bytes ++ rest)
                (o.read (o'.bytes ++ rest))
              ∙ o'.read rest);
        }

    -- The last step may choose by the value that it read.
    pub Reads-done :
        {w : Writer S} {r : Reader T A} {a : A} {b : B} (k : A → Reader T B)
        → k a ≡ give b
        → Reads w r a
        → Reads w (r >>= k) b
    Reads-done {w} {r} {a} {b} k e h s t rel =
        let o = h s t rel in
        record {
          bytes = o.bytes;
          after_write = o.after_write;
          after_read = o.after_read;
          related = o.related;
          written = o.written;
          read = λ rest.
              bind_ok r k a t o.after_read (o.bytes ++ rest) rest (o.read rest)
              ∙ rw e (unfold give in refl);
        }

    pub Reads-last :
        {w : Writer S} {r : Reader T A} {a : A} (f : A → B)
        → Reads w r a
        → Reads w (r >>= λ x. give (f x)) (f a)
    Reads-last f h = Reads-done (λ x. give (f x)) refl h

  -- A writer that emits fixed bytes, and a reader that takes them.
  pub Reads-emit {ℓ} :
      {A : Type ℓ} (bs : Bytes) (r : Reader T A) (a : A)
      → ((rest : Bytes) (t : T) → r (bs ++ rest) t ≡ ok (a, rest, t))
      → Reads (emit bs) r a
  unfolding emit
  Reads-emit bs r a h s t rel = record {
    bytes = bs;
    after_write = s;
    after_read = t;
    related = rel;
    written = refl;
    read = λ rest. h rest t;
  }

  pub Reads-give {ℓ} : {A : Type ℓ} (a : A) → Reads (emit []) (give a) a
  unfolding give
  Reads-give a = Reads-emit [] (give a) a (λ rest t. refl)

  pub Reads-byte : (b : ℕ) → Reads (write_byte b) read_byte b
  unfolding write_byte read_byte
  Reads-byte b = Reads-emit (b ∷ []) read_byte b (λ rest t. refl)

  pub Reads-full : (bs : Bytes) → Reads (emit bs) (read_full (length bs)) bs
  unfolding read_full
  Reads-full bs = Reads-emit bs (read_full (length bs)) bs λ rest t.
      let fits : leb (length bs) (length (bs ++ rest)) ≡ true =
        ground (arith, length-append bs rest) in
      rw (fits, take_prefix, drop_prefix)

pub length-le_bytes : (width v : ℕ) → length (le_bytes width v) ≡ width
unfolding le_bytes
length-le_bytes zero v = refl
length-le_bytes (suc width) v = ap suc (length-le_bytes width (v / 256))

-- Little-endian words, of every width.
pub from_le-le_bytes : (width v : ℕ) → v < 256 ^ width → from_le (le_bytes width v) ≡ v
unfolding le_bytes from_le
from_le-le_bytes zero v h = omega arith
from_le-le_bytes (suc width) v h =
    omega (arith, from_le-le_bytes width (v / 256) (div-lt width v h))
  where
    div-lt : (width v : ℕ) → v < 256 ^ suc width → v / 256 < 256 ^ width
    div-lt width v h = omega arith

module _ {S T : Type 0} (R : S → T → Type 0) where
  pub Reads-word :
      (width v : ℕ) → v < 256 ^ width → Reads R (write_word width v) (read_word width) v
  unfolding write_word read_word
  Reads-word width v h =
      let bs = le_bytes width v in
      let raw : Reads R (emit bs) (read_full width) bs =
        rw (length-le_bytes width v) at (Reads-full R bs) in
      rw (from_le-le_bytes width v h) at (Reads-last R from_le raw)

  pub Reads-u32 : (v : ℕ) → IsU32 v → Reads R (write_u32 v) read_u32 v
  unfolding write_u32 read_u32
  Reads-u32 v h = let e : v % 2 ^ 32 ≡ v = omega arith in rw e (Reads-word 4 v (omega arith))

  pub Reads-i32 : (v : ℕ) → FitsInt32 v → Reads R (write_u32 v) read_i32 v
  unfolding write_u32 read_i32
  Reads-i32 v h =
      rw (sign_extend32_mod v h) at
        (Reads-last R (λ x. sign_extend32 x) (Reads-word 4 (v % 2 ^ 32) (omega arith)))

  pub Reads-bool : (b : Bool) → Reads R (write_bool b) read_bool b
  unfolding write_bool read_bool
  Reads-bool true = Reads-last R (λ x. not (x == 0)) (Reads-byte R 1)
  Reads-bool false = Reads-last R (λ x. not (x == 0)) (Reads-byte R 0)

  module _ {ℓ} {A : Type ℓ} (write : A → Writer S) (read : Reader T A) where
    pub Reads-each :
        (list : List A)
        → All (λ a. Reads R (write a) read a) list
        → Reads R (write_each write list) (read_each read (length list)) list
    unfolding write_each read_each
    Reads-each [] h = Reads-give R []
    Reads-each (a ∷ list) (h, hs) =
        Reads-seq R _ h (Reads-last R (λ rest. a ∷ rest) (Reads-each list hs))
