-- ===== src/Core/TtlCache.antt =====
-- app/core/cache.py: `AsyncTTLCache`, the operations that run under its lock. Times are whole
-- clock ticks; the clock's reading is an argument of each operation.
pub mod Laws
pub mod History
pub mod Flight
use agentic_rag.Prelude.{ℕ, ◌+◌, Bool, Option, none, some, [], leb, ltb, length, if◌then◌else◌}
use agentic_rag.Dict.{Dict, get, remove, move_to_end, put_last, trim}

pub record Entry (V : Type 0) : Type 0 where
  pub value : V
  pub expires_at : ℕ

pub record TtlCache (K V : Type 0) : Type 0 where
  pub max_size : ℕ
  pub ttl : ℕ
  pub entries : Dict K (Entry V)
  pub hits : ℕ
  pub misses : ℕ

module _ {K V : Type 0} where
  unfoldable pub init : ℕ → ℕ → TtlCache K V
  init max_size ttl = record { max_size = max_size; ttl = ttl; entries = []; hits = 0; misses = 0 }

  unfoldable pub enabled : TtlCache K V → Bool
  enabled c = ltb 0 c.max_size

  unfoldable pub size : TtlCache K V → ℕ
  size c = length c.entries

  unfoldable pub clear : TtlCache K V → TtlCache K V
  clear c = record c { entries = [] }

module _ {K V : Type 0} (dec : Discrete K) where
  -- `_read`
  unfoldable pub read : ℕ → K → TtlCache K V → TtlCache K V × Option V
  read now key c = elim (get dec key c.entries) [
    | none ↦ (record c { misses = c.misses + 1 }, none)
    | some entry ↦
        if leb entry.expires_at now
        then (record c { entries = remove dec key c.entries; misses = c.misses + 1 }, none)
        else (
          record c { entries = move_to_end dec key c.entries; hits = c.hits + 1 },
          some entry.value,
        )
  ]

  -- `_write`
  unfoldable pub write : ℕ → K → V → TtlCache K V → TtlCache K V
  write now key value c =
      let entry : Entry V = record { value = value; expires_at = now + c.ttl } in
      record c { entries = trim c.max_size (put_last dec key entry c.entries) }

  -- `set`
  unfoldable pub set : ℕ → K → V → TtlCache K V → TtlCache K V
  unfolding enabled write
  set now key value c = if enabled c then write now key value c else c
