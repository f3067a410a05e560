-- ===== src/Map.antt =====
-- `BTreeMap<String, V>` of the standard library: the entries in the order of their keys.
pub mod Laws
use Prim.Native.Nat.Ordering.{lt, eq, gt}
use technical_tts.Prelude.{
  ℕ, Bool, true, false, Option, none, some, List, [], ◌∷◌, map, if◌then◌else◌,
}
use technical_tts.Text.{Text, text_eq, text_cmp}

abbrev pub Map : Type 0 → Type 0
Map V = List (Text × V)

module _ {V : Type 0} where
  -- `get`; the order plays no part in what it answers.
  unfoldable pub get : Text → Map V → Option V
  get k [] = none
  get k ((j, v) ∷ m) = if text_eq k j then some v else get k m

  -- `insert`: a value under a key that is there is replaced.
  unfoldable pub insert : Text → V → Map V → Map V
  insert k v [] = (k, v) ∷ []
  insert k v ((j, w) ∷ m) = elim (text_cmp k j) [
    | lt ↦ (k, v) ∷ (j, w) ∷ m
    | eq ↦ (k, v) ∷ m
    | gt ↦ (j, w) ∷ insert k v m
  ]

  abbrev pub contains_key : Text → Map V → Bool
  contains_key k m = elim (get k m) [ none ↦ false | some v ↦ true ]

  abbrev pub keys : Map V → List Text
  keys = map (λ e. e.0)

  -- `extend` and `collect`: the pairs are inserted from the left, so the last one of a key stays.
  unfoldable pub extend : Map V → List (Text × V) → Map V
  extend m [] = m
  extend m ((k, v) ∷ es) = extend (insert k v m) es

  abbrev pub collect : List (Text × V) → Map V
  collect = extend []
