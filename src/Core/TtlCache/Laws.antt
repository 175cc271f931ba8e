-- ===== src/Core/TtlCache/Laws.antt =====
-- The invariant of the cache and what a read returns after each operation.
use agentic_rag.Prelude.{ℕ, ◌+◌, ◌≤◌, ◌≡◌, none, some, arith, length, leb, true, if◌then◌else◌}
use agentic_rag.Dict.{put_last}
use agentic_rag.Dict.Keys.{
  IsDistinct, length-trim-le, length-remove-le, length-move_to_end-le, remove-IsDistinct,
  move_to_end-IsDistinct, put_last-IsDistinct, trim-IsDistinct,
}
use agentic_rag.Dict.Trim.{get-trim-put_last}
use agentic_rag.Core.TtlCache.{Entry, TtlCache, read, set, enabled}

-- never more entries than the bound, and never a key twice
pub record IsValid {K V : Type 0} (c : TtlCache K V) : Type 0 where
  pub bounded : length c.entries ≤ c.max_size
  pub distinct : IsDistinct c.entries

module _ {K V : Type 0} (dec : Discrete K) where
  pub read-IsValid :
      (now : ℕ) (key : K) (c : TtlCache K V) → IsValid c → IsValid (read dec now key c).0
  unfolding read
  read-IsValid now key c h = ground (
    arith,
    length-remove-le dec key c.entries,
    length-move_to_end-le dec key c.entries,
    remove-IsDistinct dec key c.entries h.distinct,
    move_to_end-IsDistinct dec key c.entries h.distinct,
  )

  -- A `set` keeps the cache within its bounds: at most `max_size` entries, under different keys.
  pub set-IsValid :
      (now : ℕ) (key : K) (v : V) (c : TtlCache K V) → IsValid c → IsValid (set dec now key v c)
  unfolding set
  set-IsValid now key v c h =
      let entry : Entry V = record { value = v; expires_at = now + c.ttl } in
      let placed = put_last dec key entry c.entries in
      ground (
        arith,
        length-trim-le c.max_size placed,
        trim-IsDistinct dec c.max_size placed
            (put_last-IsDistinct dec key entry c.entries h.distinct),
      )

  -- A read right after a `set` of the same key in an enabled cache returns the value exactly
  -- until `ttl` has passed, and nothing from then on.
  pub read-set_self :
      (now later : ℕ) (key : K) (v : V) (c : TtlCache K V)
      → enabled c ≡ true
      → (read dec later key (set dec now key v c)).1
        ≡ (if leb (now + c.ttl) later then none else some v)
  unfolding read set
  read-set_self now later key v c h =
      let entry : Entry V = record { value = v; expires_at = now + c.ttl } in
      ground (arith, get-trim-put_last dec c.max_size key entry c.entries)
