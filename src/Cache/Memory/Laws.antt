-- ===== src/Cache/Memory/Laws.antt =====
-- The in-memory backend keeps its bounds, and what its reads return.
use agentic_rag.Prelude.{
  ℕ, ◌+◌, ◌-◌, ◌≤◌, ◌<◌, ◌≡◌, ◌≢◌, ◌⊎◌, inl, inr, String, none, some, [], ◌∷◌, ◌++◌, arith, length,
  drop, ite, leb, if◌then◌else◌, Bool-cases, Option-cases, ltb, ◌&&◌,
}
use agentic_rag.Prelude.Text.{string_discrete}
use agentic_rag.Dict.{Dict, get, remove, assign, put_last, trim}
use agentic_rag.Dict.Lookup.{get-put_last, get-assign, put_last_lem}
use agentic_rag.Dict.Keys.{
  IsDistinct, trim_lem, length-trim-le, length-remove-le, length-move_to_end-le, remove-IsDistinct,
  move_to_end-IsDistinct, put_last-IsDistinct, trim-IsDistinct,
}
use agentic_rag.Dict.Trim.{get-trim, get-trim-put_last}
use agentic_rag.Cache.Memory.{
  MemoryBackend, has_expired, entry_for, init, read, set, namespace_entries, index_add,
  index_entries, index_remove,
}

module _ {Vec : Type 0} where
  -- both halves stay within their bounds, and no key stands twice
  pub record IsValid (b : MemoryBackend Vec) : Type 0 where
    pub bounded : length b.entries ≤ b.max_entries
    pub distinct : IsDistinct b.entries
    pub index_bounded :
        (namespace : String) → length (namespace_entries namespace b) ≤ b.index_max_entries
    pub index_distinct : (namespace : String) → IsDistinct (namespace_entries namespace b)

  pub init-IsValid : (m n : ℕ) → IsValid (init m n)
  unfolding init get namespace_entries
  init-IsValid m n = record {
    bounded = omega arith;
    distinct = tt;
    index_bounded = λ namespace. omega arith;
    index_distinct = λ namespace. tt;
  }

  pub read-IsValid :
      (now : ℕ) (key : String) (b : MemoryBackend Vec) → IsValid b → IsValid (read now key b).1
  unfolding read namespace_entries
  read-IsValid now key b h = elim (Option-cases (get string_discrete key b.entries)) [
    | inl missing ↦ rw (missing, read) h
    | inr (e, found) ↦
        rw (found, read)
          (elim (Bool-cases (has_expired now e)) [
            | inl late ↦ rw late (record {
              bounded = omega (arith, length-remove-le string_discrete key b.entries, h.bounded);
              distinct = remove-IsDistinct string_discrete key b.entries h.distinct;
              index_bounded = h.index_bounded;
              index_distinct = h.index_distinct;
            })
            | inr live ↦ rw live (record {
              bounded =
                  omega (arith, length-move_to_end-le string_discrete key b.entries, h.bounded);
              distinct = move_to_end-IsDistinct string_discrete key b.entries h.distinct;
              index_bounded = h.index_bounded;
              index_distinct = h.index_distinct;
            })
          ])
  ]

  pub set-IsValid :
      (now : ℕ) (key value : String) (ttl : ℕ) (b : MemoryBackend Vec)
      → IsValid b
      → IsValid (set now key value ttl b)
  unfolding set namespace_entries
  set-IsValid now key value ttl b h = record {
    bounded = length-trim-le b.max_entries _;
    distinct =
        trim-IsDistinct string_discrete b.max_entries _
          (put_last-IsDistinct string_discrete key (entry_for now ttl value) b.entries h.distinct);
    index_bounded = h.index_bounded;
    index_distinct = h.index_distinct;
  }

  pub namespace_entries-reindexed :
      (namespace j : String) (entries : Dict String Vec) (b : MemoryBackend Vec)
      → namespace_entries j (record b { index = assign string_discrete namespace entries b.index })
        ≡ ite (string_discrete namespace j) entries (namespace_entries j b)
  unfolding namespace_entries
  namespace_entries-reindexed namespace j entries b =
      ground (arith, get-assign string_discrete namespace j entries b.index)

  namespace_entries_found :
      (namespace : String) (entries : Dict String Vec) (b : MemoryBackend Vec)
      → get string_discrete namespace b.index ≡ some entries
      → namespace_entries namespace b ≡ entries
  unfolding namespace_entries
  namespace_entries_found namespace entries b found = ground arith

  module _ (namespace : String) (entries : Dict String Vec) (b : MemoryBackend Vec) where
    -- a namespace is given new entries that keep the bound
    reindexed-IsValid :
        length entries ≤ b.index_max_entries
        → IsDistinct entries
        → IsValid b
        → IsValid (record b { index = assign string_discrete namespace entries b.index })
    reindexed-IsValid fits once h = record {
      bounded = h.bounded;
      distinct = h.distinct;
      index_bounded = λ j.
          rw (namespace_entries-reindexed namespace j entries b)
            (elim (string_discrete namespace j)
              as (λ d. length (ite d entries (namespace_entries j b)) ≤ b.index_max_entries) [
                | yes same ↦ fits
                | no other ↦ h.index_bounded j
              ]);
      index_distinct = λ j.
          rw (namespace_entries-reindexed namespace j entries b)
            (elim (string_discrete namespace j)
              as (λ d. IsDistinct (ite d entries (namespace_entries j b))) [
                | yes same ↦ once
                | no other ↦ h.index_distinct j
              ]);
    }

  pub index_add-IsValid :
      (namespace key : String) (v : Vec) (b : MemoryBackend Vec)
      → IsValid b
      → IsValid (index_add namespace key v b)
  unfolding index_add
  index_add-IsValid namespace key v b h =
      reindexed-IsValid namespace _ b (length-trim-le b.index_max_entries _)
        (trim-IsDistinct string_discrete b.index_max_entries _ (
          put_last-IsDistinct string_discrete key v (namespace_entries namespace b)
            (h.index_distinct namespace)))
        h

  pub index_remove-IsValid :
      (namespace key : String) (b : MemoryBackend Vec)
      → IsValid b
      → IsValid (index_remove namespace key b)
  unfolding index_remove
  index_remove-IsValid namespace key b h =
      elim (Option-cases (get string_discrete namespace b.index)) [
        | inl missing ↦ rw (missing, index_remove) h
        | inr (entries, found) ↦
            rw (found, index_remove)
              (reindexed-IsValid namespace (remove string_discrete key entries) b
                (let kept = namespace_entries_found namespace entries b found in
                  omega (
                    arith,
                    length-remove-le string_discrete key entries,
                    rw kept at (h.index_bounded namespace),
                  ))
                (remove-IsDistinct string_discrete key entries (
                  rw (namespace_entries_found namespace entries b found) at
                    (h.index_distinct namespace)))
                h)
      ]

module _ {Vec : Type 0} where
  -- A read right after a `set` of the key returns the value: for ever with a `ttl` of zero, and
  -- otherwise exactly until the `ttl` has passed.
  read-set_same :
      (now later : ℕ) (key value : String) (ttl : ℕ) (b : MemoryBackend Vec)
      → 0 < b.max_entries
      → (read later key (set now key value ttl b)).0
        ≡ (if ltb 0 ttl && leb (now + ttl) later then none else some value)
  unfolding read set
  read-set_same now later key value ttl b room = ground (
    arith,
    get-trim-put_last string_discrete b.max_entries key (entry_for now ttl value) b.entries,
  )

  -- A `set` of one key never changes what another key reads: its entry stays, or was evicted.
  read-set_ne :
      (now later : ℕ) (key j value : String) (ttl : ℕ) (b : MemoryBackend Vec)
      → IsValid b
      → key ≢ j
      → ((read later j (set now key value ttl b)).0 ≡ none)
        ⊎ ((read later j (set now key value ttl b)).0 ≡ (read later j b).0)
  unfolding read set
  read-set_ne now later key j value ttl b h other =
      let entry = entry_for now ttl value in
      let placed = put_last string_discrete key entry b.entries in
      elim (Option-cases (get string_discrete j (trim b.max_entries placed))) [
        | inl gone ↦ inl (rw (gone, read))
        | inr (e, kept) ↦
            let same : get string_discrete j b.entries ≡ some e = ground (
              arith,
              other,
              get-trim string_discrete b.max_entries j e placed
                  (put_last-IsDistinct string_discrete key entry b.entries h.distinct) kept,
              get-put_last string_discrete key j entry b.entries,
            ) in
            inr (ground (arith, kept, same))
      ]

  -- A `set` moves its entry to the newest place and drops exactly the oldest entries past the
  -- bound, in their order.
  entries-set :
      (now : ℕ) (key value : String) (ttl : ℕ) (b : MemoryBackend Vec)
      → let moved = remove string_discrete key b.entries ++ (key, entry_for now ttl value) ∷ [] in
        (set now key value ttl b).entries ≡ drop (length moved - b.max_entries) moved
  unfolding set
  entries-set now key value ttl b = rw (trim_lem, put_last_lem)

  -- After `index_add` the namespace lists the key with its embedding, if the bound is positive.
  index_entries-index_add :
      (namespace key : String) (v : Vec) (b : MemoryBackend Vec)
      → 0 < b.index_max_entries
      → get string_discrete key (index_entries namespace (index_add namespace key v b)) ≡ some v
  unfolding index_entries index_add
  index_entries-index_add namespace key v b room = ground (
    arith,
    get-trim-put_last string_discrete b.index_max_entries key v (namespace_entries namespace b),
    get-assign string_discrete namespace namespace
        (trim b.index_max_entries (put_last string_discrete key v (namespace_entries namespace b)))
        b.index,
  )
