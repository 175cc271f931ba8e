-- ===== src/Core/TtlCache/History.antt =====
-- The cache against the history of its calls: what a read may return.
use agentic_rag.Prelude.{
  Option-cases, inl, inr, ℕ, ◌+◌, ◌<◌, ◌≡◌, refl, none, some, Option, arith, ite, List, [], ◌∷◌,
}
use agentic_rag.Dict.{get, put_last}
use agentic_rag.Dict.Lookup.{get-remove, get-move_to_end, get-put_last}
use agentic_rag.Dict.Keys.{put_last-IsDistinct}
use agentic_rag.Dict.Trim.{get-trim}
use agentic_rag.Core.TtlCache.{Entry, TtlCache, init, read, set, clear}
use agentic_rag.Core.TtlCache.Laws.{IsValid, read-IsValid, set-IsValid}

-- a call of the cache, with the clock's reading
pub data Call (K V : Type 0) : Type 0 where
  get_call : ℕ → K → Call K V
  set_call : ℕ → K → V → Call K V
  clear_call : Call K V

module _ {K V : Type 0} (dec : Discrete K) where
  unfoldable pub apply : TtlCache K V → Call K V → TtlCache K V
  apply c (get_call now key) = (read dec now key c).0
  apply c (set_call now key v) = set dec now key v c
  apply c clear_call = clear c

  -- the calls in order, the last one first
  unfoldable pub replay : TtlCache K V → List (Call K V) → TtlCache K V
  unfolding apply
  replay c [] = c
  replay c (call ∷ earlier) = apply (replay c earlier) call

  -- the value that the last `set` of the key gave it, with the time, if no `clear` came later
  unfoldable pub last_set : K → List (Call K V) → Option (V × ℕ)
  last_set key [] = none
  last_set key (get_call now j ∷ earlier) = last_set key earlier
  last_set key (set_call now j v ∷ earlier) = ite (dec j key) (some (v, now)) (last_set key earlier)
  last_set key (clear_call ∷ earlier) = none

  read_found :
      (now : ℕ) (key : K) (v : V) (c : TtlCache K V)
      → (read dec now key c).1 ≡ some v
      → (e : Entry V) × (get dec key c.entries ≡ some e) × (e.value ≡ v) × (now < e.expires_at)
  unfolding read
  read_found now key v c p = elim (Option-cases (get dec key c.entries)) [
    | inl missing ↦ absurd (ground arith)
    | inr (e, found) ↦ (e, found, ground arith, ground arith)
  ]

  record Tracks (max_size ttl : ℕ) (c : TtlCache K V) (calls : List (Call K V)) : Type 0 where
    valid : IsValid c
    ttl_kept : c.ttl ≡ ttl
    size_kept : c.max_size ≡ max_size
    traced :
        (key : K) (e : Entry V)
        → get dec key c.entries ≡ some e
        → (t : ℕ) × (last_set key calls ≡ some (e.value, t)) × (e.expires_at ≡ t + ttl)

  module _ (max_size ttl : ℕ) where
    Tracks-get :
        (c : TtlCache K V) (calls : List (Call K V)) (now : ℕ) (key : K)
        → Tracks max_size ttl c calls
        → Tracks max_size ttl (read dec now key c).0 (get_call now key ∷ calls)
    unfolding read last_set
    Tracks-get c calls now key t = record {
      valid = read-IsValid dec now key c t.valid;
      ttl_kept = ground (arith, t.ttl_kept);
      size_kept = ground (arith, t.size_kept);
      traced = λ j e p.
          t.traced j e
            (ground (arith, get-remove dec key j c.entries, get-move_to_end dec key j c.entries));
    }

    set_traced :
        (c : TtlCache K V) (calls : List (Call K V)) (now : ℕ) (key : K) (v : V)
        → Tracks max_size ttl c calls
        → (j : K) (e : Entry V)
        → ite
            (dec key j)
            (some (record { value = v; expires_at = now + c.ttl }))
            (get dec j c.entries)
          ≡ some e
        → (t : ℕ) × (last_set j (set_call now key v ∷ calls) ≡ some (e.value, t))
          × (e.expires_at ≡ t + ttl)
    unfolding last_set
    set_traced c calls now key v t j e p =
        elim (dec key j)
            as (λ d.
              ite d (some (record { value = v; expires_at = now + c.ttl })) (get dec j c.entries)
                ≡ some e
              → (x : ℕ) × (ite d (some (v, now)) (last_set j calls) ≡ some (e.value, x))
                × (e.expires_at ≡ x + ttl)) [
                  | yes same ↦ λ q. (now, ground arith, ground (arith, t.ttl_kept))
                  | no other ↦ λ q. t.traced j e q
                ]
          p

    Tracks-set :
        (c : TtlCache K V) (calls : List (Call K V)) (now : ℕ) (key : K) (v : V)
        → 0 < max_size
        → Tracks max_size ttl c calls
        → Tracks max_size ttl (set dec now key v c) (set_call now key v ∷ calls)
    unfolding set last_set
    Tracks-set c calls now key v some_room t = record {
      valid = set-IsValid dec now key v c t.valid;
      ttl_kept = ground (arith, t.ttl_kept);
      size_kept = ground (arith, t.size_kept);
      traced = λ j e p.
          let entry : Entry V = record { value = v; expires_at = now + c.ttl } in
          let placed = put_last dec key entry c.entries in
          let stored : get dec j placed ≡ some e =
            get-trim dec c.max_size j e placed
              (put_last-IsDistinct dec key entry c.entries t.valid.distinct)
              (ground (arith, t.size_kept, p)) in
          set_traced c calls now key v t j e (rw get-put_last at stored);
    }

    Tracks-clear :
        (c : TtlCache K V) (calls : List (Call K V))
        → Tracks max_size ttl c calls
        → Tracks max_size ttl (clear c) (clear_call ∷ calls)
    unfolding clear get
    Tracks-clear c calls t = record {
      valid = record { bounded = omega arith; distinct = tt };
      ttl_kept = t.ttl_kept;
      size_kept = t.size_kept;
      traced = λ key e p. absurd (ground arith);
    }

    Tracks-replay :
        (c : TtlCache K V) (calls : List (Call K V))
        → 0 < max_size
        → Tracks max_size ttl c []
        → Tracks max_size ttl (replay c calls) calls
    unfolding replay
    Tracks-replay c [] some_room t = t
    Tracks-replay c (get_call now key ∷ calls) some_room t =
        Tracks-get (replay c calls) calls now key (Tracks-replay c calls some_room t)
    Tracks-replay c (set_call now key v ∷ calls) some_room t =
        Tracks-set (replay c calls) calls now key v some_room (Tracks-replay c calls some_room t)
    Tracks-replay c (clear_call ∷ calls) some_room t =
        Tracks-clear (replay c calls) calls (Tracks-replay c calls some_room t)

    Tracks-init : Tracks max_size ttl (init max_size ttl) []
    unfolding init get
    Tracks-init = record {
      valid = record { bounded = omega arith; distinct = tt };
      ttl_kept = refl;
      size_kept = refl;
      traced = λ key e p. absurd (ground arith);
    }

    -- After any calls on a fresh cache of positive size, a value that a read returns is the one
    -- that the last `set` of its key stored, no `clear` came since, and its `ttl` has not passed.
    pub read-last_set :
        (calls : List (Call K V)) (now : ℕ) (key : K) (v : V)
        → 0 < max_size
        → (read dec now key (replay (init max_size ttl) calls)).1 ≡ some v
        → (t : ℕ) × (last_set key calls ≡ some (v, t)) × (now < t + ttl)
    unfolding read
    read-last_set calls now key v some_room p =
        let c = replay (init max_size ttl) calls in
        let t = Tracks-replay (init max_size ttl) calls some_room Tracks-init in
        let (e, stored, same, live) = read_found now key v c p in
        let (since, last, expiry) = t.traced key e stored in
        (since, ground (arith, last, same), omega arith)
