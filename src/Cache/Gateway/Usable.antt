-- ===== src/Cache/Gateway/Usable.antt =====
-- app/cache/gateway.py: what `_read` lets through is an entry of the backend, live and of the versions
-- in force.
use agentic_rag.Prelude.{
  ℕ, String, Option, none, some, ◌≡◌, refl, true, Bool-cases, Option-cases, inl, inr,
}
use agentic_rag.Core.Errors.{Result, ok, raise}
use agentic_rag.Core.Exec.{Exec, pure, continue, ◌>>=◌}
use agentic_rag.Core.Exec.Ensures.{Ensures, Ensures-pure, Ensures-bind}
use agentic_rag.Cache.Keys.{CacheVersions}
use agentic_rag.Cache.Base.{is_live, matches}
use agentic_rag.Cache.Versions.{Shared, on_backend}
use agentic_rag.Cache.Gateway.{Wiring, Answer}
use agentic_rag.Cache.Gateway.Lookup.{judge, check_entry, found_raw, read}

-- what a lookup may serve under the versions `v`: reading `key` at the state `at` finds the text of
-- the entry, the entry carries those versions, and it is live when the clock is read next
pub record IsUsable (w : Wiring) (v : CacheVersions) (key : String) (at : w.backend.State)
    (entry : Answer w) : Type 0 where
  pub raw : String
  pub found : (w.backend.get key at).0 ≡ ok (some raw)
  pub stored : w.codec.decode raw ≡ some entry
  pub matching : matches entry v ≡ true
  pub live : is_live entry (w.backend.clock (w.backend.get key at).1).0 ≡ true

-- a result that is there satisfies `P`
abbrev pub IfSome : {A : Type 0} → (A → Type 0) → Option A → Type 0
IfSome P none = Unit
IfSome P (some a) = P a

module _ (w : Wiring) (v : CacheVersions) where
  open w use {backend, settings}

  discard_Ensures :
      {A : Type 0} (P : A → Type 0) (m : Exec (Shared backend) (Unit {0}))
      → Ensures (IfSome P) (m >>= λ _. pure none)
  discard_Ensures P m =
      Ensures-bind (λ _. Unit) m (λ _. pure none) (record { at = λ s a e. tt })
        (λ a p. Ensures-pure none tt)

  -- what the checks of `_read` let through of a text, by the clock's reading
  record IsRead (raw : String) (now : ℕ) (entry : Answer w) : Type 0 where
    stored : w.codec.decode raw ≡ some entry
    matching : matches entry v ≡ true
    live : is_live entry now ≡ true

  judge-Ensures :
      (key raw : String) (entry : Answer w)
      → w.codec.decode raw ≡ some entry
      → (now : ℕ) → Ensures (IfSome (IsRead raw now)) (judge w key v entry now)
  unfolding judge
  judge-Ensures key raw entry stored now = elim (Bool-cases (is_live entry now)) [
    | inr late ↦ rw late (discard_Ensures _ (on_backend backend (backend.delete key)))
    | inl live ↦ elim (Bool-cases (matches entry v)) [
      | inr other ↦ rw (live, other) (discard_Ensures _ (on_backend backend (backend.delete key)))
      | inl same ↦
          rw (live, same)
            (Ensures-pure (some entry) (record { stored = stored; matching = same; live = live }))
    ]
  ]

  found_raw-IsRead :
      (key raw : String) (t : Shared backend) (entry : Answer w)
      → (found_raw w key v (some raw) t).0 ≡ ok (some entry)
      → IsRead raw (backend.clock t.backend).0 entry
  unfolding found_raw check_entry
  found_raw-IsRead key raw t entry = elim (Option-cases (w.codec.decode raw)) [
    | inl unreadable ↦ rw unreadable (λ e. absurd (
        (discard_Ensures {A = Answer w} (λ u. ⊥) (on_backend backend (backend.delete key))).at t
          (some entry) e))
    | inr (found, stored) ↦ rw stored (λ e.
        (judge-Ensures key raw found stored (backend.clock t.backend).0).at
          (record t { backend = (backend.clock t.backend).1 }) (some entry) e)
  ]

  pub read-IsUsable :
      (key : String) (s : Shared backend) (entry : Answer w)
      → (read w key v s).0 ≡ ok (some entry)
      → IsUsable w v key s.backend entry
  unfolding read found_raw
  read-IsUsable key s entry e = usable (backend.get key s.backend).0 refl e
    where
      usable :
          (r : Result (Option String))
          → (backend.get key s.backend).0 ≡ r
          → (continue r
              (found_raw w key v)
              (record s { backend = (backend.get key s.backend).1 })).0
            ≡ ok (some entry)
          → IsUsable w v key s.backend entry
      usable (ok (some raw)) got e =
          let u = found_raw-IsRead key raw _ entry e in
          record { raw = raw; found = got; stored = u.stored; matching = u.matching; live = u.live }
      usable (ok none) got e = absurd (cc e)
      usable (raise x) got e = absurd (cc e)

  -- a read, at whatever state it is made
  abbrev pub IsUsableSomewhere : String → Answer w → Type 0
  IsUsableSomewhere key entry = (at : backend.State) × IsUsable w v key at entry

  pub read-Ensures : (key : String) → Ensures (IfSome (IsUsableSomewhere key)) (read w key v)
  read-Ensures key = record { at = λ s o e. usable s o e }
    where
      usable :
          (s : Shared backend) (o : Option (Answer w))
          → (read w key v s).0 ≡ ok o
          → IfSome (IsUsableSomewhere key) o
      usable s none e = tt
      usable s (some entry) e = (s.backend, read-IsUsable key s entry e)
