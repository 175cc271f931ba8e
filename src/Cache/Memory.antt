-- ===== src/Cache/Memory.antt =====
-- app/cache/memory.py: `InMemoryCacheBackend`. Vec is the type of the embeddings that it stores.
-- Each operation runs under the lock; `now` is the clock's reading, in whole ticks.
pub mod Laws
pub mod Interface
use agentic_rag.Prelude.{
  ℕ, ◌+◌, String, Bool, true, Option, none, some, List, [], ◌&&◌, leb, ltb, if◌then◌else◌,
}
use agentic_rag.Prelude.Text.{string_discrete}
use agentic_rag.Dict.{Dict, get, remove, assign, move_to_end, put_last, trim}

pub record Entry : Type 0 where
  pub value : String
  pub expires_at : ℕ

pub record MemoryBackend (Vec : Type 0) : Type 0 where
  pub max_entries : ℕ
  pub index_max_entries : ℕ
  pub entries : Dict String Entry
  pub index : Dict String (Dict String Vec)

abbrev pub default_max_entries : ℕ
default_max_entries = 4096

-- an `expires_at` of zero means that the entry does not expire
abbrev pub has_expired : ℕ → Entry → Bool
has_expired now entry = ltb 0 entry.expires_at && leb entry.expires_at now

abbrev pub entry_for : ℕ → ℕ → String → Entry
entry_for now ttl value = record { value = value; expires_at = if ltb 0 ttl then now + ttl else 0 }

module _ {Vec : Type 0} where
  unfoldable pub init : ℕ → ℕ → MemoryBackend Vec
  init max_entries index_max_entries = record {
    max_entries = max_entries;
    index_max_entries = index_max_entries;
    entries = [];
    index = [];
  }

  unfoldable pub read : ℕ → String → MemoryBackend Vec → Option String × MemoryBackend Vec
  read now key b = elim (get string_discrete key b.entries) [
    | none ↦ (none, b)
    | some entry ↦
        if has_expired now entry
        then (none, record b { entries = remove string_discrete key b.entries })
        else (some entry.value, record b { entries = move_to_end string_discrete key b.entries })
  ]

  unfoldable pub set : ℕ → String → String → ℕ → MemoryBackend Vec → MemoryBackend Vec
  set now key value ttl b = record b {
    entries = trim b.max_entries (put_last string_discrete key (entry_for now ttl value) b.entries);
  }

  unfoldable pub delete : String → MemoryBackend Vec → MemoryBackend Vec
  delete key b = record b { entries = remove string_discrete key b.entries }

  -- `self._index.get(namespace, {})`
  unfoldable pub namespace_entries : String → MemoryBackend Vec → Dict String Vec
  namespace_entries namespace b = elim (get string_discrete namespace b.index) [
    | none ↦ []
    | some entries ↦ entries
  ]

  unfoldable pub index_add : String → String → Vec → MemoryBackend Vec → MemoryBackend Vec
  unfolding namespace_entries
  index_add namespace key embedding b =
      let placed = put_last string_discrete key embedding (namespace_entries namespace b) in
      record b {
        index = assign string_discrete namespace (trim b.index_max_entries placed) b.index;
      }

  unfoldable pub index_entries : String → MemoryBackend Vec → Dict String Vec
  unfolding namespace_entries
  index_entries namespace b = namespace_entries namespace b

  unfoldable pub index_remove : String → String → MemoryBackend Vec → MemoryBackend Vec
  index_remove namespace key b = elim (get string_discrete namespace b.index) [
    | none ↦ b
    | some entries ↦ record b {
      index = assign string_discrete namespace (remove string_discrete key entries) b.index;
    }
  ]

  unfoldable pub clear : MemoryBackend Vec → MemoryBackend Vec
  clear b = record b { entries = []; index = [] }
