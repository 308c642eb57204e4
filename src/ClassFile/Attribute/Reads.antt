-- ===== src/ClassFile/Attribute/Reads.antt =====
-- Buffers and attributes are read back, where the pool has their names.
use polyloft_bvm.Prelude.{
  ◌<◌, ◌^◌, arith, ℕ, ◌≡◌, refl, sym, ◌∙◌, ap, List, [], ◌++◌, append-nil, Text, length,
}
use polyloft_bvm.Prelude.Word.{IsU16, IsU32}
use polyloft_bvm.Binary.{Result, ok, err, Bytes, ◌>>=◌}
use polyloft_bvm.Binary.Reads.{Reads, Reads-seq, Reads-last, Reads-full}
use polyloft_bvm.ClassFile.Wire.Reads.{Reads-u2, Reads-u4}
use polyloft_bvm.ClassFile.Pool.{Entry, Pool, attribute_name, read_pool_utf8}
use polyloft_bvm.ClassFile.Attribute.{
  Out, In, buffered, named, decoded, lift, write_attribute, read_attribute,
}

abbrev pub size_of : Result (Bytes × Pool) → ℕ
size_of (ok (bs, cp)) = length bs
size_of (err p) = 0

module _ (cp : Pool) where
  -- The pool is complete: nothing that is written changes it.
  abbrev pub Complete : Pool → Unit {0} → Type 0
  Complete s t = s ≡ cp

  -- What is written on a complete pool is read back.
  abbrev pub Codec {ℓ} : {A : Type ℓ} → Out → In A → A → Type ℓ
  Codec w r a = Reads Complete w r a

  -- The buffer stays below 2^32 bytes.
  abbrev pub Sized : Out → Type 0
  Sized w = (bs : Bytes) (after : Pool) → w cp ≡ ok (bs, after) → IsU32 (length bs)

  pub size_of-Sized : (w : Out) (n : ℕ) → size_of (w cp) ≡ n → n < 2 ^ 32 → Sized w
  size_of-Sized w n e h bs after f =
      let same : n ≡ length bs = sym e ∙ ap size_of f in omega (arith, same)

  -- The pool has the name, and its entries lead to it.
  pub record Knows (es : List Entry) (v : Text) : Type 0 where
    pub index : ℕ
    pub small : IsU16 index
    pub asked : attribute_name v cp ≡ (index, cp)
    pub resolved : read_pool_utf8 es index ≡ ok v

  buffered-written :
      (w : Out) (k : Bytes → Out) (s s' : Pool) (bs : Bytes)
      → w s ≡ ok (bs, s')
      → buffered w k s ≡ k bs s'
  unfolding buffered
  buffered-written w k s s' bs e = rw (e, buffered) refl

  module _ {ℓ} {A : Type ℓ} where
    decoded-read :
        (r : In A) (a : A) (bs : Bytes) (t : Unit {0})
        → r (bs ++ []) tt ≡ ok (a, [], t)
        → decoded r bs ≡ ok a
    unfolding decoded
    decoded-read r a bs t h =
        let e : r bs tt ≡ ok (a, [], t) = rw append-nil at h in rw (e, decoded) refl

    -- A buffer that is read back, and what is written with its bytes.
    pub Codec-buffered {κ} :
        {B : Type κ} {w : Out} {r : In A} {a : A} {k : Bytes → Out} {read : In B} {b : B}
        → Codec w r a
        → Sized w
        → ((info : Bytes) → decoded r info ≡ ok a → IsU32 (length info) → Codec (k info) read b)
        → Codec (buffered w k) read b
    Codec-buffered {w} {r} {a} {k} h size hk s t rel =
        let o = h s t rel in
        let inner =
          hk o.bytes (decoded-read r a o.bytes o.after_read (o.read []))
            (size o.bytes o.after_write (ap w (sym rel) ∙ o.written)) o.after_write t o.related in
        record {
          bytes = inner.bytes;
          after_write = inner.after_write;
          after_read = inner.after_read;
          related = inner.related;
          written = buffered-written w k s o.after_write o.bytes o.written ∙ inner.written;
          read = inner.read;
        }

    -- A name that the pool knows already.
    pub Codec-named :
        {read : In A} {a : A} (k : ℕ → Out) (es : List Entry) (v : Text) (known : Knows es v)
        → Codec (k known.index) read a
        → Codec (named v k) read a
    unfolding named
    Codec-named k es v known h s t rel =
        let o = h cp t refl in
        record {
          bytes = o.bytes;
          after_write = o.after_write;
          after_read = o.after_read;
          related = o.related;
          written = rw (rel, known.asked) o.written;
          read = o.read;
        }

    -- A step that reads nothing, for which nothing is written.
    pub Codec-silent {κ} :
        {B : Type κ} {w : Out} {b : B} (k : A → In B) (r : In A) (a : A)
        → ((bs : Bytes) (t : Unit {0}) → r bs t ≡ ok (a, bs, t))
        → Codec w (k a) b
        → Codec w (r >>= k) b
    unfolding ◌>>=◌
    Codec-silent k r a e h s t rel =
        let o = h s t rel in
        record {
          bytes = o.bytes;
          after_write = o.after_write;
          after_read = o.after_read;
          related = o.related;
          written = o.written;
          read = λ rest. rw (e (o.bytes ++ rest) t, ◌>>=◌) (o.read rest);
        }

    pub Codec-after {κ} :
        {B : Type κ} {w : Out} {b : B} (k : A → In B) (res : Result A) (a : A)
        → res ≡ ok a
        → Codec w (k a) b
        → Codec w (lift res >>= k) b
    unfolding lift
    Codec-after k res a e h = Codec-silent k (lift res) a (λ bs t. rw e refl) h

  pub Codec-attribute :
      (es : List Entry) (v : Text) (known : Knows es v) (info : Bytes)
      → IsU32 (length info)
      → Codec (write_attribute known.index info) (read_attribute es) (v, info)
  unfolding write_attribute read_attribute
  Codec-attribute es v known info h =
      Reads-seq Complete _ (Reads-u2 Complete known.index known.small) (
        Reads-seq Complete _ (Reads-u4 Complete (length info) h) (
          Codec-after _ (read_pool_utf8 es known.index) v known.resolved
            (Reads-last Complete (λ bs. (v, bs)) (Reads-full Complete info))))
