-- ===== src/Cache/Versions/Bump.antt =====
-- An advance of the knowledge base version gives a version that no present entry carries.
use agentic_rag.Prelude.{zero, suc, String, some, refl, ◌≡◌, ◌≢◌, arith}
use agentic_rag.Core.Errors.{Result, ok, raise}
use agentic_rag.Core.Exec.{Exec, pure, modify, continue, ◌>>◌}
use agentic_rag.Cache.Base.{Backend}
use agentic_rag.Cache.Versions.{
  ℤ, pos, negsuc, add_one, Numerals, as_int, Shared, on_backend, current, bump,
}

add_one_ne : (i : ℤ) → add_one i ≢ i
add_one_ne (pos n) e = ground arith
add_one_ne (negsuc zero) e = cc
add_one_ne (negsuc (suc n)) e = ground arith

next_ne : (n : Numerals) (v : String) → n.text_of_int (add_one (as_int n v)) ≢ v
unfolding as_int
next_ne n v e = ground (arith, n.read_back (add_one (as_int n v)), add_one_ne (as_int n v))

module _ {Vec : Type 0} (B : Backend Vec) (n : Numerals) (key : String) (s : Shared B) where
  -- Whatever the backend holds, a `bump` that succeeds returns a version other than the one that
  -- was current, and keeps it as the last known one.
  pub bump_ne_current :
      (old next : String)
      → (current B key s).0 ≡ ok old
      → (bump B n key s).0 ≡ ok next
      → (next ≢ old) × ((bump B n key s).1.last_known ≡ next)
  unfolding bump
  bump_ne_current old next was done = ground (arith, next_ne n old)

  -- A write that succeeds is read back at this state: what `get` promises of `set` under one key.
  abbrev pub IsReadBack : B.State → Type 0
  IsReadBack b =
      (v : String) → (B.set key v 0 b).0 ≡ ok tt → (B.get key (B.set key v 0 b).1).0 ≡ ok (some v)

  -- the rest of `bump`, once the version is read
  abbrev advance_to : String → Exec (Shared B) String
  advance_to v = do
    on_backend B (B.set key v 0)
    modify (λ (s : Shared B). record s { last_known = v })
    pure v

  written-current :
      (v next last : String) (r : Result Unit) (b : B.State)
      → (r ≡ ok tt → (B.get key b).0 ≡ ok (some v))
      → (continue r
          (λ (u : Unit) (t : Shared B). (ok v, record t { last_known = v }))
          (record { backend = b; last_known = last })).0
        ≡ ok next
      → (current B key
          (continue r
            (λ (u : Unit) (t : Shared B). (ok v, record t { last_known = v }))
            (record { backend = b; last_known = last })).1).0
        ≡ ok next
  unfolding current
  written-current v next last (ok u) b law done = rw (law refl) done
  written-current v next last (raise x) b law done = absurd (ground arith)

  -- the version that a bump returns is the one in force after it
  pub bump-current :
      (next : String)
      → IsReadBack (current B key s).1.backend
      → (bump B n key s).0 ≡ ok next
      → (current B key (bump B n key s).1).0 ≡ ok next
  unfolding bump
  bump-current next law done = read_then (current B key s).0 (current B key s).1 law done
    where
      read_then :
          (r : Result String) (t : Shared B)
          → IsReadBack t.backend
          → (continue r (λ version. advance_to (n.text_of_int (add_one (as_int n version)))) t).0
            ≡ ok next
          → (current B key
              (continue r
                (λ version. advance_to (n.text_of_int (add_one (as_int n version))))
                t).1).0
            ≡ ok next
      read_then (ok version) t law done =
          let v = n.text_of_int (add_one (as_int n version)) in
          written-current v next t.last_known (B.set key v 0 t.backend).0
            (B.set key v 0 t.backend).1 (law v) done
      read_then (raise x) t law done = absurd (ground arith)
