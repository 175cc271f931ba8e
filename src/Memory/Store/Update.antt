-- ===== src/Memory/Store/Update.antt =====
-- What one change of a session does to the store: `_session` of app/memory/store.py in normal form.
use agentic_rag.Prelude.{
  ℕ, zero, suc, ◌-◌, ◌≤◌, ◌<◌, ◌≡◌, refl, ap, String, none, some, [], ◌∷◌, ◌++◌, arith, length, ltb,
  if◌then◌else◌, length-append, inl, inr, Option-cases, Bool-cases, drop,
}
use agentic_rag.Prelude.Text.{string_discrete}
use agentic_rag.Dict.{Dict, get, remove, assign, move_to_end, trim}
use agentic_rag.Dict.Lookup.{get-remove, get-append}
use agentic_rag.Dict.Keys.{trim_lem, assign-none, remove-none}
use agentic_rag.Memory.Store.{
  StoreSettings, Session, Sessions, fresh, pop_oldest, open_session, update_session,
}

module _ {ℓ} {K V : Type ℓ} (dec : Discrete K) where
  remove-append :
      (k : K) (c d : Dict K V) → remove dec k (c ++ d) ≡ remove dec k c ++ remove dec k d
  unfolding remove
  remove-append k [] d = refl
  remove-append k (e ∷ c) d = ground (arith, remove-append k c d)

  append-nil : (d : Dict K V) → d ++ [] ≡ d
  append-nil [] = refl
  append-nil (e ∷ d) = ap (λ (r : Dict K V). e ∷ r) (append-nil d)

  -- the item that stands last stays there when it is moved to the end
  pub move_to_end-last :
      (k : K) (v : V) (d : Dict K V)
      → get dec k d ≡ none
      → move_to_end dec k (d ++ (k, v) ∷ []) ≡ d ++ (k, v) ∷ []
  unfolding move_to_end get remove
  move_to_end-last k v d h =
      let found : get dec k (d ++ (k, v) ∷ []) ≡ some v =
        ground (arith, get-append dec k d ((k, v) ∷ [])) in
      let taken : remove dec k (d ++ (k, v) ∷ []) ≡ d =
        rw (remove-append, remove-none dec k d h) (ground (arith, append-nil d)) in
      rw (found, move_to_end, taken)

  assign-append :
      (k : K) (u v : V) (d : Dict K V)
      → get dec k d ≡ none
      → assign dec k v (d ++ (k, u) ∷ []) ≡ d ++ (k, v) ∷ []
  unfolding get assign
  assign-append k u v [] h = ground arith
  assign-append k u v (e ∷ d) h = ground (arith, assign-append k u v d)

  pub get-drop-none :
      (k : K) (n : ℕ) (d : Dict K V) → get dec k d ≡ none → get dec k (drop n d) ≡ none
  unfolding get
  get-drop-none k zero d h = h
  get-drop-none k (suc n) [] h = h
  get-drop-none k (suc n) (e ∷ d) h = ground (arith, get-drop-none k n d)

-- the sessions that stay when one is opened: an old one is taken out, a new one may displace the oldest
unfoldable pub kept : StoreSettings → String → Sessions → Sessions
kept settings id d = elim (get string_discrete id d) [
  | some s ↦ remove string_discrete id d
  | none ↦ trim (settings.max_sessions - 1) d
]

unfoldable pub current : String → Sessions → Session
current id d = elim (get string_discrete id d) [ some s ↦ s | none ↦ fresh ]

module _ (settings : StoreSettings) where
  pub get-kept_self :
      (id : String) (d : Sessions) → get string_discrete id (kept settings id d) ≡ none
  unfolding kept
  get-kept_self id d = elim (Option-cases (get string_discrete id d)) [
    | inl missing ↦
        rw (missing, kept, trim_lem)
          (get-drop-none string_discrete id (length d - (settings.max_sessions - 1)) d missing)
    | inr (s, found) ↦ rw (found, kept) (ground (arith, get-remove string_discrete id id d))
  ]

  popped :
      (d : Sessions) (e : String × Session) (max : ℕ)
      → 0 < max
      → length d ≤ max
      → (if ltb max (length (d ++ e ∷ [])) then pop_oldest (d ++ e ∷ []) else (d ++ e ∷ []))
        ≡ trim (max - 1) d ++ e ∷ []
  unfolding trim
  popped [] e max room h = ground arith
  popped (x ∷ d) e max room h =
      let total = length-append d (e ∷ []) in
      elim (Bool-cases (ltb max (length (x ∷ d ++ e ∷ [])))) [
        | inl over ↦
            let one_over : suc (length d) - (max - 1) ≡ 1 = ground (arith, total) in
            rw (over, trim_lem, one_over)
        | inr fits ↦
            let none_over : suc (length d) - (max - 1) ≡ 0 = ground (arith, total) in
            rw (fits, trim_lem, none_over)
      ]

  open_session_lem :
      (id : String) (d : Sessions)
      → 0 < settings.max_sessions
      → length d ≤ settings.max_sessions
      → open_session settings id d ≡ (current id d, kept settings id d ++ (id, current id d) ∷ [])
  unfolding open_session kept current move_to_end
  open_session_lem id d room h = elim (Option-cases (get string_discrete id d)) [
    | inl missing ↦
        let added : assign string_discrete id fresh d ≡ d ++ (id, fresh) ∷ [] =
          assign-none string_discrete id fresh d missing in
        let gone : get string_discrete id (trim (settings.max_sessions - 1) d) ≡ none =
          rw trim_lem
            (get-drop-none string_discrete id (length d - (settings.max_sessions - 1)) d missing) in
        rw
          (
            missing,
            open_session,
            kept,
            current,
            added,
            popped d (id, fresh) settings.max_sessions room h,
          )
          (rw (move_to_end-last string_discrete id fresh (trim (settings.max_sessions - 1) d) gone)
            refl)
    | inr (s, found) ↦ rw (found, open_session, kept, current) (rw (found, move_to_end) refl)
  ]

  -- In a store within its bound and with room for one session, a change of a session puts the
  -- changed session last, as the newest, and keeps the others as they stood: all of them when the
  -- session was there, and all but the oldest ones past the bound when it is new.
  pub update_session_lem :
      (id : String) (f : Session → Session) (d : Sessions)
      → 0 < settings.max_sessions
      → length d ≤ settings.max_sessions
      → update_session settings id f d ≡ kept settings id d ++ (id, f (current id d)) ∷ []
  unfolding update_session
  update_session_lem id f d room h = rw (open_session_lem id d room h) (
      assign-append string_discrete id (current id d) (f (current id d)) (kept settings id d)
        (get-kept_self id d))
