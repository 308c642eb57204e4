-- ===== src/ClassFile/Pool/RoundTrip.antt =====
-- The indices that `cpBuilder` hands out, in the pool that is read back.
use polyloft_bvm.Prelude.{
  ℕ, ◌+◌, ◌^◌, ◌<◌, ◌≤◌, ◌≡◌, refl, ap, ◌∙◌, List, [], ◌∷◌, ◌++◌, append_assoc, append-nil, length,
  All, arith,
}
use polyloft_bvm.Binary.Reads.{Outcome}
use polyloft_bvm.ClassFile.Pool.{Entry, Pool, new_pool, write_cp, read_cp}
use polyloft_bvm.ClassFile.Pool.Entries.{Reads-cp}
use polyloft_bvm.ClassFile.Pool.Requests.{
  Request, request, FitsRequest, Resolves, At-Resolves, At_grows,
}
use polyloft_bvm.ClassFile.Pool.Builder.{IsPool, new_pool-IsPool}
use polyloft_bvm.ClassFile.Pool.Answers.{request-Answered, request_grows}

-- Requests one after the other, with the indices handed out.
abbrev pub requests : List Request → Pool → List ℕ × Pool
requests [] cp = ([], cp)
requests (q ∷ qs) cp = let r = request q cp in let rs = requests qs r.1 in (r.0 ∷ rs.0, rs.1)

-- Each index leads to what was asked for.
abbrev pub AllResolve : List Entry → List Request → List ℕ → Type 0
AllResolve es [] [] = Unit {0}
AllResolve es (q ∷ qs) (i ∷ is) = Resolves es q i × AllResolve es qs is
AllResolve es _ _ = ⊥

record Served (cp : Pool) (qs : List Request) (r : List ℕ × Pool) : Type 0 where
  pool : IsPool r.1
  resolve : AllResolve r.1.entries qs r.0
  more : List Entry
  grown : r.1.entries ≡ cp.entries ++ more

pub requests_grow :
    (qs : List Request) (cp : Pool) → length cp.entries ≤ length (requests qs cp).1.entries
requests_grow [] cp = omega arith
requests_grow (q ∷ qs) cp = omega (arith, request_grows q cp, requests_grow qs (request q cp).1)

serve :
    (qs : List Request) (cp : Pool)
    → IsPool cp
    → All FitsRequest qs
    → length (requests qs cp).1.entries < 2 ^ 16
    → Served cp qs (requests qs cp)
serve [] cp p h b = record { pool = p; resolve = tt; more = []; grown = rw append-nil refl }
serve (q ∷ qs) cp p h b =
    let r = request q cp in
    let b' : length r.1.entries < 2 ^ 16 = omega (arith, b, requests_grow qs r.1) in
    let a = request-Answered q cp p h.0 b' in
    let rest = serve qs r.1 a.pool h.1 b in
    record {
      pool = rest.pool;
      resolve = (
        At-Resolves _ q r.0 (rw rest.grown (At_grows r.1.entries rest.more q r.0 a.at)),
        rest.resolve,
      );
      more = a.more ++ rest.more;
      grown =
          rest.grown
          ∙ ap (λ es. es ++ rest.more) a.grown
          ∙ append_assoc cp.entries a.more rest.more;
    }

-- The pool that requests to a new builder leave.
pub requests-IsPool :
    (qs : List Request)
    → All FitsRequest qs
    → length (requests qs new_pool).1.entries < 2 ^ 16
    → IsPool (requests qs new_pool).1
requests-IsPool qs h b = (serve qs new_pool new_pool-IsPool h b).pool

module _ {S T : Type 0} (R : S → T → Type 0) where
  -- After any requests to a new builder, `readCP` reads back the pool that `writeCP` writes, and in it
  -- `cpReader` finds at each index handed out what was asked for, if the pool stays below 2^16 - 1 places
  -- and each text below 2^16 bytes.
  pub read_cp-requests :
      (qs : List Request) (s : S) (t : T)
      → All FitsRequest qs
      → length (requests qs new_pool).1.entries + 1 < 2 ^ 16
      → R s t
      → Outcome R
          (write_cp (requests qs new_pool).1.entries)
          read_cp
          (requests qs new_pool).1.entries
          s
          t
        × AllResolve (requests qs new_pool).1.entries qs (requests qs new_pool).0
  read_cp-requests qs s t h b r =
      let served = serve qs new_pool new_pool-IsPool h (omega arith) in
      (Reads-cp R _ served.pool.layout b s t r, served.resolve)
