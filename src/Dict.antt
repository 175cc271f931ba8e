-- ===== src/Dict.antt =====
-- `collections.OrderedDict` and `dict` as the program uses them: the items in insertion order,
-- oldest first, under keys with a decidable equality. Each key stands at most once.
pub mod Lookup
pub mod Keys
pub mod Trim
pub mod Recent
use agentic_rag.Prelude.{
  ℕ, Option, none, some, List, [], ◌∷◌, ◌++◌, map, length, leb, ite, if◌then◌else◌,
}

abbrev pub Dict {ℓ} : Type ℓ → Type ℓ → Type ℓ
Dict K V = List (K × V)

module _ {ℓ} {K V : Type ℓ} where
  -- `list(d)`
  abbrev pub keys : Dict K V → List K
  keys = map (λ e. e.0)

  -- `while len(d) > bound: d.popitem(last=False)`
  unfoldable pub trim : ℕ → Dict K V → Dict K V
  trim bound [] = []
  trim bound (e ∷ d) = let rest = trim bound d in if leb (length (e ∷ d)) bound then e ∷ d else rest

module _ {ℓ} {K V : Type ℓ} (dec : Discrete K) where
  -- `d.get(k)`
  unfoldable pub get : K → Dict K V → Option V
  get k [] = none
  get k (e ∷ d) = ite (dec e.0 k) (some e.1) (get k d)

  -- `d.pop(k, None)`, `del d[k]`
  unfoldable pub remove : K → Dict K V → Dict K V
  remove k [] = []
  remove k (e ∷ d) = let rest = remove k d in ite (dec e.0 k) rest (e ∷ rest)

  -- `d[k] = v`: in place under a key that is there, at the end under a new one
  unfoldable pub assign : K → V → Dict K V → Dict K V
  assign k v [] = (k, v) ∷ []
  assign k v (e ∷ d) = ite (dec e.0 k) ((k, v) ∷ d) (e ∷ assign k v d)

  -- `d.move_to_end(k)`
  unfoldable pub move_to_end : K → Dict K V → Dict K V
  unfolding get remove
  move_to_end k d = elim (get k d) [ none ↦ d | some v ↦ remove k d ++ (k, v) ∷ [] ]

  -- `d[k] = v; d.move_to_end(k)`
  unfoldable pub put_last : K → V → Dict K V → Dict K V
  unfolding assign move_to_end
  put_last k v d = move_to_end k (assign k v d)
