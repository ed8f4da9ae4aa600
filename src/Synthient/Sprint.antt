-- ===== src/Synthient/Sprint.antt =====
-- `fmt.Sprint` of a decoded JSON value.
use synthient_mcp.Prelude.{
  List, [], ◌∷◌, ◌++◌, Bool, true, false, ltb, ◌==◌, ◌&&◌, ◌||◌, if◌then◌else◌, ◌≡◌, refl,
}
use synthient_mcp.Text.{Text, codes}
use synthient_mcp.Synthient.Json.{
  Value, null, bool, number, string, array, object, Items, nil, cons, Fields, end, field,
}

-- `a < b` on strings.
unfoldable pub text_lt : Text → Text → Bool
text_lt s [] = false
text_lt [] (b ∷ t) = true
text_lt (a ∷ s) (b ∷ t) = ltb a b || (a == b && text_lt s t)

-- The entries of a map are printed in the order of their keys.
insert_sorted : Text → Text → List (Text × Text) → List (Text × Text)
unfolding text_lt
insert_sorted k v [] = (k, v) ∷ []
insert_sorted k v ((j, w) ∷ es) =
    if text_lt k j then (k, v) ∷ (j, w) ∷ es else (j, w) ∷ insert_sorted k v es

entry : Text × Text → Text
entry (k, v) = k ++ b':' ∷ v

-- The entries with a blank between them.
spaced : List Text → Text
spaced [] = []
spaced (t ∷ []) = t
spaced (t ∷ u ∷ ts) = t ++ b' ' ∷ spaced (u ∷ ts)

entries : List (Text × Text) → List Text
unfolding entry
entries [] = []
entries (e ∷ es) = entry e ∷ entries es

unfoldable mutual
  unfolding insert_sorted spaced entries

  pub sprint : Value → Text
  sprint null = codes "<nil>"
  sprint (bool true) = codes "true"
  sprint (bool false) = codes "false"
  sprint (number n) = n
  sprint (string s) = s
  sprint (array xs) = b'[' ∷ (spaced (sprint_items xs) ++ b']' ∷ [])
  sprint (object fs) = codes "map[" ++ (spaced (entries (sprint_fields fs)) ++ b']' ∷ [])

  pub sprint_items : Items → List Text
  sprint_items nil = []
  sprint_items (cons x xs) = sprint x ∷ sprint_items xs

  pub sprint_fields : Fields → List (Text × Text)
  sprint_fields end = []
  sprint_fields (field k v fs) = insert_sorted k (sprint v) (sprint_fields fs)

sprint_tests :
    sprint (
      object (
        field
          (codes "b")
          (array (cons (number (codes "1")) (cons null nil)))
          (field (codes "a") (bool true) end)))
    ≡ codes "map[a:true b:[1 <nil>]]"
unfolding sprint
sprint_tests = refl
