-- ===== src/Services/Embeddings/Kept.antt =====
-- What calls for other texts leave of an entry in the cache of query vectors of
-- app/services/embeddings.py.
use agentic_rag.Prelude.{
  ℕ, suc, ◌≢◌, ◌+◌, ◌<◌, ◌≡◌, sym, subst, ltb, length, List, [], ◌∷◌, Bool-cases, Option-cases, inl,
  inr, ◌⊎◌, refl, String, true, false, Option, none, some, leb, arith,
}
use agentic_rag.Prelude.Text.{string_discrete}
use agentic_rag.Core.Errors.{Result, ok, raise}
use agentic_rag.Core.Exec.{continue}
use agentic_rag.Dict.{get}
use agentic_rag.Dict.Recent.{
  IsWithin, IsWithin-le, get_of_IsWithin, remove-IsWithin, trim-IsWithin, put_last-IsWithin,
  put_last-first, move_to_end-IsWithin,
}
use agentic_rag.Core.TtlCache.{Entry, TtlCache, read, write, set, enabled}
use agentic_rag.Services.Embeddings.{
  EmbeddingService, Cached, embed_query, query_key, load, after_read, embed_text,
}

module _ {World Vec : Type 0} (service : EmbeddingService World Vec) (text : String) where
  -- calls for other texts, the last one first, each in the world that it meets
  abbrev pub after_calls : List (String × World) → Cached World Vec → Cached World Vec
  after_calls [] s = s
  after_calls ((other, u) ∷ earlier) s =
      (embed_text service other (record (after_calls earlier s) { world = u })).1

  -- each of the calls is for a text with another key
  abbrev pub AreOthers : List (String × World) → Type 0
  AreOthers [] = Unit
  AreOthers ((other, u) ∷ earlier) =
      (query_key service other ≢ query_key service text) × AreOthers earlier

  abbrev entry_at : ℕ → ℕ → Vec → Entry Vec
  entry_at now ttl v = record { value = v; expires_at = now + ttl }

  -- the cache keeps the text's vector, with at most `n` entries more recent than it
  pub record Keeps (v : Vec) (w : World) (size ttl n : ℕ) (c : TtlCache String Vec) : Type 0 where
    pub sized : c.max_size ≡ size
    pub lives : c.ttl ≡ ttl
    pub within :
        IsWithin string_discrete
          (query_key service text)
          (entry_at (service.now w) ttl v)
          n
          c.entries

  module _ (v : Vec) (w : World) (size ttl : ℕ) where
    -- a read of another key: a miss makes nothing more recent, a hit makes one entry so
    read-Keeps :
        (now : ℕ) (key : String) (n : ℕ) (c : TtlCache String Vec)
        → key ≢ query_key service text
        → Keeps v w size ttl n c
        → (((read string_discrete now key c).1 ≡ none)
            × Keeps v w size ttl n (read string_discrete now key c).0)
          ⊎ ((x : Vec) × ((read string_discrete now key c).1 ≡ some x)
              × Keeps v w size ttl (suc n) (read string_discrete now key c).0)
    unfolding read
    read-Keeps now key n c other h = elim (Option-cases (get string_discrete key c.entries)) [
      | inl missing ↦
          rw (missing, read)
            (inl (refl, record { sized = h.sized; lives = h.lives; within = h.within }))
      | inr (e, found) ↦
          rw (found, read)
            (elim (Bool-cases (leb e.expires_at now)) [
              | inl late ↦ rw late (
                  inl (
                    refl,
                    record {
                      sized = h.sized;
                      lives = h.lives;
                      within = remove-IsWithin string_discrete _ _ key n c.entries other h.within;
                    },
                  ))
              | inr live ↦ rw live (
                  inr (
                    e.value,
                    refl,
                    record {
                      sized = h.sized;
                      lives = h.lives;
                      within =
                          move_to_end-IsWithin string_discrete _ _ key n c.entries other h.within;
                    },
                  ))
            ])
    ]

    set-Keeps :
        (now : ℕ) (key : String) (x : Vec) (n : ℕ) (c : TtlCache String Vec)
        → suc n < size
        → key ≢ query_key service text
        → Keeps v w size ttl n c
        → Keeps v w size ttl (suc n) (set string_discrete now key x c)
    unfolding set write enabled
    set-Keeps now key x n c room other h =
        let on : ltb 0 c.max_size ≡ true = ground (arith, room, h.sized) in
        rw on (record {
          sized = h.sized;
          lives = h.lives;
          within =
              trim-IsWithin string_discrete _ _ c.max_size (suc n) _ (ground (arith, room, h.sized))
                (put_last-IsWithin string_discrete _ _ key _ n c.entries other h.within);
        })

    loaded_from :
        (other : String) (r : Result Vec) (u : World) (n : ℕ) (c : TtlCache String Vec)
        → suc n < size
        → query_key service other ≢ query_key service text
        → Keeps v w size ttl n c
        → Keeps v w size ttl
            (suc n)
            (continue r
              (λ (x : Vec) (t : Cached World Vec). (
                ok x,
                record t {
                  cache =
                      set string_discrete (service.now t.world) (query_key service other) x t.cache;
                },
              ))
              (record { cache = c; world = u })).1.cache
    loaded_from other (ok x) u n c room apart h =
        set-Keeps (service.now u) (query_key service other) x n c room apart h
    loaded_from other (raise x) u n c room apart h = record {
      sized = h.sized;
      lives = h.lives;
      within = IsWithin-le string_discrete _ _ n (suc n) c.entries (omega arith) h.within;
    }

    embed_text-Keeps :
        (other : String) (n : ℕ) (s : Cached World Vec)
        → suc n < size
        → query_key service other ≢ query_key service text
        → Keeps v w size ttl n s.cache
        → Keeps v w size ttl (suc n) (embed_text service other s).1.cache
    unfolding embed_text load enabled
    embed_text-Keeps other n s room apart h =
        let on : ltb 0 s.cache.max_size ≡ true = ground (arith, room, h.sized) in
        let key = query_key service other in
        let out = read string_discrete (service.now s.world) key s.cache in
        let called = embed_query service other s.world in
        rw on (elim (read-Keeps (service.now s.world) key n s.cache apart h) [
          | inl (missed, kept) ↦
              subst
                (λ (o : Option Vec).
                  Keeps v w size ttl (suc n) (after_read service other (out.0, o) s).1.cache)
                (sym missed) (loaded_from other called.0 called.1 n out.0 room apart kept)
          | inr (x, hit, kept) ↦
              subst
                (λ (o : Option Vec).
                  Keeps v w size ttl (suc n) (after_read service other (out.0, o) s).1.cache)
                (sym hit) kept
        ])

    pub after_calls-Keeps :
        (calls : List (String × World)) (s : Cached World Vec)
        → AreOthers calls
        → length calls < size
        → Keeps v w size ttl 0 s.cache
        → Keeps v w size ttl (length calls) (after_calls calls s).cache
    after_calls-Keeps [] s o room h = h
    after_calls-Keeps ((other, u) ∷ earlier) s o room h =
        embed_text-Keeps other (length earlier) (record (after_calls earlier s) { world = u }) room
          o.0 (after_calls-Keeps earlier s o.1 (omega (arith, room)) h)

    pub found_live :
        (now n : ℕ) (c : TtlCache String Vec)
        → Keeps v w size ttl n c
        → now < service.now w + ttl
        → (read string_discrete now (query_key service text) c).1 ≡ some v
    unfolding read
    found_live now n c h fresh =
        let found = get_of_IsWithin string_discrete _ _ n c.entries h.within in
        let live : leb (service.now w + ttl) now ≡ false = ground (arith, fresh) in
        rw (found, read, live) refl

    pub loaded-Keeps :
        (c : TtlCache String Vec)
        → 0 < size
        → c.max_size ≡ size
        → c.ttl ≡ ttl
        → Keeps v w size ttl 0 (set string_discrete (service.now w) (query_key service text) v c)
    unfolding set write enabled
    loaded-Keeps c room sized lives =
        let on : ltb 0 c.max_size ≡ true = ground (arith, room, sized) in
        rw on (record {
          sized = sized;
          lives = lives;
          within =
              trim-IsWithin string_discrete _ _ c.max_size 0 _ (ground (arith, room, sized))
                (rw lives (put_last-first string_discrete _ _ c.entries));
        })
