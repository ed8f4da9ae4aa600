-- ===== src/GoMap/Laws.antt =====
-- Laws of the map operations.
use synthient_mcp.Prelude.{
  suc, ◌≤◌, ◌<◌, [], ◌∷◌, ◌≡◌, refl, ◌≢◌, Bool, Option, none, some, if◌then◌else◌, length, arith,
  inl, inr, Bool-cases,
}
use synthient_mcp.Text.{Text, text_eq}
use synthient_mcp.Text.Equality.{text_eq-cases, text_eq_refl}
use synthient_mcp.GoMap.{GoMap, lookup, insert, delete, prune, HasUniqueKeys}

-- What the entry of a key is after the entries that fail `keep` are gone.
abbrev pub keep_if {ℓ} : {V : Type ℓ} → (V → Bool) → Option V → Option V
keep_if keep none = none
keep_if keep (some v) = if keep v then some v else none

module _ {ℓ} {V : Type ℓ} where
  pub lookup-insert_self : (k : Text) (v : V) (m : GoMap V) → lookup k (insert k v m) ≡ some v
  unfolding lookup insert
  lookup-insert_self k v [] = ground (arith, text_eq_refl k)
  lookup-insert_self k v ((i, w) ∷ m) = ground (arith, text_eq_refl k, lookup-insert_self k v m)

  pub lookup-insert_ne :
      (k j : Text) (v : V) (m : GoMap V) → j ≢ k → lookup j (insert k v m) ≡ lookup j m
  unfolding lookup insert
  lookup-insert_ne k j v [] h = ground (arith, text_eq-cases k j)
  lookup-insert_ne k j v ((i, w) ∷ m) h =
      ground (arith, text_eq-cases k j, text_eq-cases i k, lookup-insert_ne k j v m h)

  pub lookup-delete_self : (k : Text) (m : GoMap V) → lookup k (delete k m) ≡ none
  unfolding lookup delete
  lookup-delete_self k [] = refl
  lookup-delete_self k ((i, w) ∷ m) = ground (arith, lookup-delete_self k m)

  pub lookup-delete_ne : (k j : Text) (m : GoMap V) → j ≢ k → lookup j (delete k m) ≡ lookup j m
  unfolding lookup delete
  lookup-delete_ne k j [] h = refl
  lookup-delete_ne k j ((i, w) ∷ m) h =
      ground (arith, text_eq-cases i k, text_eq-cases i j, lookup-delete_ne k j m h)

  lookup-prune-none :
      (keep : V → Bool) (j : Text) (m : GoMap V)
      → lookup j m ≡ none
      → lookup j (prune keep m) ≡ none
  unfolding lookup prune
  lookup-prune-none keep j [] h = refl
  lookup-prune-none keep j ((i, w) ∷ m) h = ground (arith, lookup-prune-none keep j m)

  pub lookup-prune :
      (keep : V → Bool) (j : Text) (m : GoMap V)
      → HasUniqueKeys m
      → lookup j (prune keep m) ≡ keep_if keep (lookup j m)
  unfolding lookup prune
  lookup-prune keep j [] u = refl
  lookup-prune keep j ((i, w) ∷ m) u =
      ground (arith, text_eq-cases i j, lookup-prune keep j m u.1, lookup-prune-none keep i m u.0)

  pub length-insert-le : (k : Text) (v : V) (m : GoMap V) → length (insert k v m) ≤ suc (length m)
  unfolding insert
  length-insert-le k v [] = omega arith
  length-insert-le k v ((i, w) ∷ m) = ground (arith, length-insert-le k v m)

  pub length-insert_old :
      (k : Text) (v : V) (m : GoMap V) → lookup k m ≢ none → length (insert k v m) ≡ length m
  unfolding insert lookup
  length-insert_old k v [] h = absurd (h refl)
  length-insert_old k v ((i, w) ∷ m) h = ground (arith, length-insert_old k v m)

  pub length-delete-le : (k : Text) (m : GoMap V) → length (delete k m) ≤ length m
  unfolding delete
  length-delete-le k [] = omega arith
  length-delete-le k ((i, w) ∷ m) = ground (arith, length-delete-le k m)

  pub length-delete-lt :
      (k : Text) (m : GoMap V) → lookup k m ≢ none → length (delete k m) < length m
  unfolding delete lookup
  length-delete-lt k [] h = absurd (h refl)
  length-delete-lt k ((i, w) ∷ m) h = ground (arith, length-delete-le k m, length-delete-lt k m)

  pub length-prune-le : (keep : V → Bool) (m : GoMap V) → length (prune keep m) ≤ length m
  unfolding prune
  length-prune-le keep [] = omega arith
  length-prune-le keep ((i, w) ∷ m) = ground (arith, length-prune-le keep m)

  pub insert-HasUniqueKeys :
      (k : Text) (v : V) (m : GoMap V) → HasUniqueKeys m → HasUniqueKeys (insert k v m)
  unfolding insert
  insert-HasUniqueKeys k v [] u = (unfold lookup in refl, tt)
  insert-HasUniqueKeys k v ((i, w) ∷ m) u =
      ground (arith, text_eq-cases i k, lookup-insert_ne k i v m, insert-HasUniqueKeys k v m u.1)

  lookup-delete-none : (k j : Text) (m : GoMap V) → lookup j m ≡ none → lookup j (delete k m) ≡ none
  unfolding lookup delete
  lookup-delete-none k j [] h = refl
  lookup-delete-none k j ((i, w) ∷ m) h = ground (arith, lookup-delete-none k j m)

  pub delete-HasUniqueKeys : (k : Text) (m : GoMap V) → HasUniqueKeys m → HasUniqueKeys (delete k m)
  unfolding delete
  delete-HasUniqueKeys k [] u = tt
  delete-HasUniqueKeys k ((i, w) ∷ m) u =
      ground (arith, lookup-delete-none k i m u.0, delete-HasUniqueKeys k m u.1)

  pub prune-HasUniqueKeys :
      (keep : V → Bool) (m : GoMap V) → HasUniqueKeys m → HasUniqueKeys (prune keep m)
  unfolding prune
  prune-HasUniqueKeys keep [] u = tt
  prune-HasUniqueKeys keep ((i, w) ∷ m) u =
      ground (arith, lookup-prune-none keep i m u.0, prune-HasUniqueKeys keep m u.1)

-- A predicate on every stored value.
module _ {ℓ κ} {V : Type ℓ} (P : V → Type κ) where
  abbrev pub Values : GoMap V → Type κ
  Values [] = Unit
  Values ((j, v) ∷ m) = P v × Values m

  pub insert-Values : (k : Text) (v : V) (m : GoMap V) → P v → Values m → Values (insert k v m)
  unfolding insert
  insert-Values k v [] h a = (h, tt)
  insert-Values k v ((i, w) ∷ m) h a = elim (Bool-cases (text_eq i k)) [
    | inl e ↦ rw e (h, a.1)
    | inr e ↦ rw e (a.0, insert-Values k v m h a.1)
  ]

  pub delete-Values : (k : Text) (m : GoMap V) → Values m → Values (delete k m)
  unfolding delete
  delete-Values k [] a = tt
  delete-Values k ((i, w) ∷ m) a = elim (Bool-cases (text_eq i k)) [
    | inl e ↦ rw e (delete-Values k m a.1)
    | inr e ↦ rw e (a.0, delete-Values k m a.1)
  ]

  pub prune-Values : (keep : V → Bool) (m : GoMap V) → Values m → Values (prune keep m)
  unfolding prune
  prune-Values keep [] a = tt
  prune-Values keep ((i, w) ∷ m) a = elim (Bool-cases (keep w)) [
    | inl e ↦ rw e (a.0, prune-Values keep m a.1)
    | inr e ↦ rw e (prune-Values keep m a.1)
  ]

  pub lookup-Values : (k : Text) (m : GoMap V) {v : V} → Values m → lookup k m ≡ some v → P v
  unfolding lookup
  lookup-Values k [] a e = absurd (cc)
  lookup-Values k ((i, w) ∷ m) {v} a e = elim (Bool-cases (text_eq i k)) [
    | inl hit ↦ let same : w ≡ v = ground arith in rw same at (a.0)
    | inr miss ↦ lookup-Values k m a.1 (ground arith)
  ]
