-- ===== src/HttpServer/Scopes/Sets.antt =====
-- uniqueStrings gives the set of the trimmed strings, without the empty one.
use synthient_mcp.Prelude.{
  List, [], ◌∷◌, ◌++◌, map, ◌≡◌, refl, ◌∙◌, ap, Bool, true, false, not, ◌&&◌, ◌||◌, arith,
  Bool-cases, inl, inr,
}
use synthient_mcp.Text.{Text, text_eq, member, trim_space}
use synthient_mcp.Text.Equality.{text_eq_comm, text_eq-cases}
use synthient_mcp.HttpServer.Scopes.{collect_unique, unique_strings}

member-append_one :
    (w t : Text) (ts : List Text) → member w (ts ++ t ∷ []) ≡ (member w ts || text_eq t w)
unfolding member
member-append_one w t [] = ground arith
member-append_one w t (u ∷ ts) = ground (arith, member-append_one w t ts)

-- What the loop finds of a string, in its result or ahead.
abbrev found : Text → List Text → List Text → Bool
found w result values = member w result || (not (text_eq w []) && member w (map trim_space values))

collect-found :
    (w : Text) (result values : List Text)
    → member w (collect_unique result values) ≡ found w result values
unfolding collect_unique member
collect-found w result [] = ground arith
collect-found w result (v ∷ vs) = elim (text_eq-cases (trim_space v) w) [
  | inl (hit, same) ↦ elim (Bool-cases (text_eq (trim_space v) [])) [
    | inl blank ↦ rw blank (collect-found w result vs ∙ ground (arith, ap (λ s. text_eq s []) same))
    | inr shown ↦ elim (Bool-cases (member (trim_space v) result)) [
      | inl old ↦
          rw (shown, old)
            (collect-found w result vs ∙ ground (arith, ap (λ s. member s result) same))
      | inr new ↦
          rw (shown, new)
            (collect-found w (result ++ trim_space v ∷ []) vs
              ∙ ground
                  (arith, ap (λ s. text_eq s []) same, member-append_one w (trim_space v) result))
    ]
  ]
  | inr (miss, other) ↦
      elim (Bool-cases (text_eq (trim_space v) [] || member (trim_space v) result)) [
        | inl skip ↦ rw skip (collect-found w result vs ∙ ground arith)
        | inr new ↦ rw new (
            collect-found w (result ++ trim_space v ∷ []) vs
            ∙ ground (arith, member-append_one w (trim_space v) result))
      ]
]

-- A list in which no string stands twice.
abbrev pub distinct : List Text → Bool
distinct [] = true
distinct (t ∷ ts) = not (member t ts) && distinct ts

distinct-append_one :
    (t : Text) (ts : List Text)
    → member t ts ≡ false
    → distinct ts ≡ true
    → distinct (ts ++ t ∷ []) ≡ true
unfolding member
distinct-append_one t [] h d = refl
distinct-append_one t (u ∷ ts) h d =
    ground (arith, member-append_one u t ts, text_eq_comm t u, distinct-append_one t ts)

collect-distinct :
    (result values : List Text)
    → distinct result ≡ true
    → distinct (collect_unique result values) ≡ true
unfolding collect_unique
collect-distinct result [] d = d
collect-distinct result (v ∷ vs) d =
    elim (Bool-cases (text_eq (trim_space v) [] || member (trim_space v) result)) [
      | inl skip ↦ rw skip (collect-distinct result vs d)
      | inr new ↦ rw new (
          collect-distinct (result ++ trim_space v ∷ []) vs
            (distinct-append_one (trim_space v) result (ground arith) d))
    ]

-- uniqueStrings gives each string once, and a string is in its result exactly if it is not empty
-- and is one of the given strings without the blanks at their ends.
pub unique_strings-distinct :
    (values : List Text)
    → (distinct (unique_strings values) ≡ true)
      × ((w : Text)
          → member w (unique_strings values)
            ≡ (not (text_eq w []) && member w (map trim_space values)))
unfolding unique_strings member
unique_strings-distinct values = (collect-distinct [] values refl, λ w. collect-found w [] values)
