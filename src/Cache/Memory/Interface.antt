-- ===== src/Cache/Memory/Interface.antt =====
-- app/cache/memory.py as a `CacheBackend`: no operation raises, and the clock only moves forward.
use agentic_rag.Prelude.{ℕ, String, Option, true}
use agentic_rag.Core.Errors.{ok}
use agentic_rag.Core.Exec.{Exec, modify, pure}
use agentic_rag.Cache.Base.{Backend}
use agentic_rag.Cache.Memory.{
  MemoryBackend, read, set, delete, index_add, index_entries, index_remove, clear,
}

-- the backend, and what its clock reads now
pub record Local (Vec : Type 0) : Type 0 where
  pub backend : MemoryBackend Vec
  pub now : ℕ

module _ {Vec : Type 0} where
  abbrev pub on_local : (MemoryBackend Vec → MemoryBackend Vec) → Local Vec → Local Vec
  on_local f l = record l { backend = f l.backend }

  unfoldable pub local_get : String → Exec (Local Vec) (Option String)
  unfolding read
  local_get key l =
      let (value, b) = read l.now key l.backend in (ok value, record l { backend = b })

  unfoldable pub local_set : String → String → ℕ → Exec (Local Vec) (Unit {0})
  unfolding set
  local_set key value ttl l = (ok tt, on_local (set l.now key value ttl) l)

  -- `InMemoryCacheBackend`
  abbrev pub memory_backend : Backend Vec
  memory_backend = record {
    State = Local Vec;
    clock = λ l. (l.now, l);
    get = local_get;
    set = local_set;
    delete = λ key. modify (on_local (delete key));
    index_add =
        λ namespace key embedding ttl. modify (on_local (index_add namespace key embedding));
    index_entries = λ namespace l. (ok (index_entries namespace l.backend), l);
    index_remove = λ namespace key. modify (on_local (index_remove namespace key));
    clear = modify (on_local clear);
    healthy = pure true;
  }
