-- ===== src/GoMap.antt =====
-- A Go map with string keys, as the list of its entries: `m[k]`, `m[k] = v`, `delete(m, k)`,
-- `len(m)`, and the loop that deletes the entries which fail a test.
pub mod Laws
use synthient_mcp.Prelude.{List, [], ◌∷◌, ◌≡◌, Bool, Option, none, some, if◌then◌else◌}
use synthient_mcp.Text.{Text, text_eq}

abbrev pub GoMap {ℓ} : Type ℓ → Type ℓ
GoMap V = List (Text × V)

module _ {ℓ} {V : Type ℓ} where
  unfoldable pub lookup : Text → GoMap V → Option V
  lookup k [] = none
  lookup k ((j, v) ∷ m) = if text_eq j k then some v else lookup k m

  unfoldable pub insert : Text → V → GoMap V → GoMap V
  insert k v [] = (k, v) ∷ []
  insert k v ((j, w) ∷ m) = if text_eq j k then (k, v) ∷ m else (j, w) ∷ insert k v m

  unfoldable pub delete : Text → GoMap V → GoMap V
  delete k [] = []
  delete k ((j, v) ∷ m) = let rest = delete k m in if text_eq j k then rest else (j, v) ∷ rest

  unfoldable pub prune : (V → Bool) → GoMap V → GoMap V
  prune keep [] = []
  prune keep ((j, v) ∷ m) = let rest = prune keep m in if keep v then (j, v) ∷ rest else rest

  -- No key stands twice: what Go's maps guarantee.
  abbrev pub HasUniqueKeys : GoMap V → Type ℓ
  HasUniqueKeys [] = Unit
  HasUniqueKeys ((j, v) ∷ m) = (lookup j m ≡ none) × HasUniqueKeys m
