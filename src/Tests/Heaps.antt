-- ===== src/Tests/Heaps.antt =====
-- A cell that holds a tuple which holds the cell.
use polyloft_bvm.Prelude.{ℕ, zero, suc, ◌<◌, ◌≡◌, refl, [], ◌∷◌, some, All, arith, length}
use polyloft_bvm.Value.DeepCopy.{
  Object, order, last, address, cell, tuple, shared, object_value, deep_copy, make_slots, done,
}
use polyloft_bvm.Value.DeepCopy.Copies.{IsHeap, InHeap}
use polyloft_bvm.Value.DeepCopy.Ends.{DeepCopied, deep_copy-DeepCopied}
use polyloft_bvm.Tests.Values.{naturals, number_of}

abbrev ring : ℕ → Object ℕ
ring zero = record { shape = cell; slots = object_value naturals 1 ∷ [] }
ring (suc zero) = record { shape = tuple; slots = number_of 7 ∷ object_value naturals 0 ∷ [] }
ring (suc (suc n)) = record { shape = shared; slots = [] }

points : (p : ℕ) → p < 2 → InHeap naturals 2 ring (object_value naturals p)
unfolding object_value
points p l k e = let d : p ≡ k = cc in omega (arith, d, l)

ring-IsHeap : IsHeap naturals 2 ring (λ p. 0) 1
unfolding make_slots
ring-IsHeap = record {
  closed = ring_closed;
  inline = ring_inline;
  below = λ p l. omega arith;
  acyclic = ring_acyclic;
}
  where
    ring_closed : (p : ℕ) → p < 2 → All (InHeap naturals 2 ring) (ring p).slots
    ring_closed zero l = (points 1 (omega arith), tt)
    ring_closed (suc zero) l = ((λ q e. absurd (cc)), (points 0 (omega arith), tt))
    ring_closed (suc (suc n)) l = absurd (omega (arith, l))

    ring_inline : (p : ℕ) → p < 2 → make_slots (ring p) ≡ done (length (ring p).slots)
    ring_inline zero l = refl
    ring_inline (suc zero) l = refl
    ring_inline (suc (suc n)) l = absurd (omega (arith, l))

    ring_acyclic :
        (p : ℕ)
        → p < 2
        → order (ring p).shape ≡ last
        → All
            (λ v. (q : ℕ) → address v ≡ some q → order (ring q).shape ≡ last → 0 < 0)
            (ring p).slots
    ring_acyclic zero l e = absurd (cc)
    ring_acyclic (suc zero) l e = absurd (cc)
    ring_acyclic (suc (suc n)) l e = absurd (omega (arith, l))

deep_copy-DeepCopied_example :
    DeepCopied naturals 2 ring
      (λ p. 0)
      1
      ring-IsHeap
      (deep_copy naturals 6 (object_value naturals 0) 2 ring)
      (object_value naturals 0)
deep_copy-DeepCopied_example =
    deep_copy-DeepCopied naturals 2 ring (λ p. 0) 1 ring-IsHeap 6 (object_value naturals 0)
      (points 0 (omega arith)) (omega arith)
