-- ===== src/Services/Embeddings/Once.antt =====
-- The cache of query vectors of app/services/embeddings.py: one call of the provider for one text.
use agentic_rag.Prelude.{
  ℕ, ◌+◌, ◌<◌, ◌≡◌, ap, length, List, ◌∙◌, String, true, Option, none, some, arith,
}
use agentic_rag.Prelude.Text.{string_discrete}
use agentic_rag.Core.Errors.{Result, ok}
use agentic_rag.Core.Exec.{continue}
use agentic_rag.Core.TtlCache.{TtlCache, read, set, enabled}
use agentic_rag.Services.Embeddings.{
  EmbeddingService, Cached, embed_query, query_key, load, after_read, embed_text,
}
use agentic_rag.Services.Embeddings.Kept.{
  after_calls, AreOthers, after_calls-Keeps, found_live, loaded-Keeps,
}

module _ {World Vec : Type 0} (service : EmbeddingService World Vec) (text : String)
    (s : Cached World Vec) where
  abbrev looked_up : TtlCache String Vec × Option Vec
  looked_up = read string_discrete (service.now s.world) (query_key service text) s.cache

  -- a text that is not in the cache, and the call that loads it
  pub record IsLoaded (v : Vec) (w : World) : Type 0 where
    pub active : enabled s.cache ≡ true
    pub absent : looked_up.1 ≡ none
    pub called : embed_query service text s.world ≡ (ok v, w)

  -- the state after the load
  abbrev pub loaded : Vec → World → Cached World Vec
  loaded v w = record {
    cache = set string_discrete (service.now w) (query_key service text) v looked_up.0;
    world = w;
  }

  missed : looked_up.1 ≡ none → looked_up ≡ (looked_up.0, none)
  missed h = ap (λ (o : Option Vec). (looked_up.0, o)) h

  load-loaded :
      (v : Vec) (w : World)
      → embed_query service text s.world ≡ (ok v, w)
      → load service text (record s { cache = looked_up.0 }) ≡ (ok v, loaded v w)
  unfolding load
  load-loaded v w called =
      ap
        (λ (out : Result Vec × World).
          continue out.0
            (λ (u : Vec) (t : Cached World Vec). (
              ok u,
              record t {
                cache =
                    set string_discrete (service.now t.world) (query_key service text) u t.cache;
              },
            ))
            (record { cache = looked_up.0; world = out.1 }))
        called

  embed_text-loaded :
      (v : Vec) (w : World) → IsLoaded v w → embed_text service text s ≡ (ok v, loaded v w)
  unfolding embed_text
  embed_text-loaded v w h =
      rw (h.active, embed_text)
        (ap (λ (r : TtlCache String Vec × Option Vec). after_read service text r s)
            (missed h.absent)
          ∙ load-loaded v w h.called)

module _ {World Vec : Type 0} (service : EmbeddingService World Vec) (text : String) where
  -- a read that finds a value costs no call
  embed_text-found :
      (t : Cached World Vec) (v : Vec)
      → enabled t.cache ≡ true
      → (read string_discrete (service.now t.world) (query_key service text) t.cache).1 ≡ some v
      → ((embed_text service text t).0 ≡ ok v) × ((embed_text service text t).1.world ≡ t.world)
  unfolding embed_text
  embed_text-found t v active found =
      let r = read string_discrete (service.now t.world) (query_key service text) t.cache in
      let hit = ap (λ (o : Option Vec). after_read service text (r.0, o) t) found in
      rw (active, embed_text)
        (
          ap (λ (out : Result Vec × Cached World Vec). out.0) hit,
          ap (λ (out : Result Vec × Cached World Vec). out.1.world) hit,
        )

  read_sizes :
      (now : ℕ) (key : String) (c : TtlCache String Vec)
      → ((read string_discrete now key c).0.max_size ≡ c.max_size)
        × ((read string_discrete now key c).0.ttl ≡ c.ttl)
  unfolding read
  read_sizes now key c = (ground arith, ground arith)

  -- A text whose vector was loaded costs no second call of the provider within the time to live, as
  -- long as the calls in between are for other texts and fewer than the cache has places: the
  -- service returns the same vector and leaves the world as it finds it, whatever happened to the
  -- world meanwhile and however the calls in between ended.
  pub embed_text-once :
      (s : Cached World Vec) (v : Vec) (w later : World) (calls : List (String × World))
      → IsLoaded service text s v w
      → AreOthers service text calls
      → length calls < s.cache.max_size
      → service.now later < service.now w + s.cache.ttl
      → (embed_text service text s ≡ (ok v, loaded service text s v w))
        × ((embed_text service text
              (record (after_calls service text calls (loaded service text s v w)) {
                world = later;
              })).0
            ≡ ok v)
        × ((embed_text service text
              (record (after_calls service text calls (loaded service text s v w)) {
                world = later;
              })).1.world
            ≡ later)
  unfolding enabled
  embed_text-once s v w later calls h others room fresh =
      let size = s.cache.max_size in
      let ttl = s.cache.ttl in
      let c = (looked_up service text s).0 in
      let (sized, lives) = read_sizes (service.now s.world) (query_key service text) s.cache in
      let kept =
        after_calls-Keeps service text v w size ttl calls (loaded service text s v w) others room
          (loaded-Keeps service text v w size ttl c (omega (arith, room)) sized lives) in
      let t = record (after_calls service text calls (loaded service text s v w)) {
        world = later;
      } in
      let (same, untouched) = embed_text-found t v (ground (arith, room, kept.sized)) (
        found_live service text v w size ttl (service.now later) (length calls) t.cache kept
          fresh) in
      (embed_text-loaded service text s v w h, same, untouched)
