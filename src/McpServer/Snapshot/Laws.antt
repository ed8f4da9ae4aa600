-- ===== src/McpServer/Snapshot/Laws.antt =====
-- The texts that snapshotSegments accepts, and what it makes of them.
use synthient_mcp.Prelude.{
  ℕ, ◌≤◌, List, [], ◌∷◌, ◌++◌, ◌≡◌, refl, sym, ◌↔◌, true, false, Option, none, some, if◌then◌else◌,
  arith, inl, inr, Bool-cases, ok,
}
use synthient_mcp.Text.{Text, codes, trim_space, text_eq, Cut, cut}
use synthient_mcp.Text.Equality.{text_eq-cases, text_eq→eq, text_eq_refl}
use synthient_mcp.Text.Decimal.{ℤ, pos, negsuc, atoi, itoa, itoa_int, atoi-itoa}
use synthient_mcp.Text.Search.{Lacks}
use synthient_mcp.Text.Cutting.{IsCut, cut-IsCut, cut_miss, cut_hit}
use synthient_mcp.Text.Split.{join}
use synthient_mcp.McpServer.Snapshot.{is_date, hour_in_range, segments_of, snapshot_segments}

-- The path of a snapshot: `latest`, a day, or a day and one of its hours.
pub data IsSnapshot : List Text → Type 0 where
  latest : IsSnapshot (codes "latest" ∷ [])
  day : (date : Text) → is_date date ≡ true → IsSnapshot (date ∷ [])
  hour : (date : Text) (n : ℕ) → is_date date ≡ true → n ≤ 23 → IsSnapshot (date ∷ itoa n ∷ [])

is_date-Lacks : (date : Text) → is_date date ≡ true → Lacks b'/' date
unfolding is_date
is_date-Lacks (y ∷ e ∷ a ∷ r ∷ p ∷ m ∷ n ∷ q ∷ d ∷ f ∷ []) h = ground arith
is_date-Lacks _ h = absurd (cc)

hour_in_range_sound :
    (h : Text) (o : Option ℤ) → hour_in_range h o ≡ true → (n : ℕ) × (n ≤ 23) × (h ≡ itoa n)
unfolding itoa_int
hour_in_range_sound h none e = absurd (cc)
hour_in_range_sound h (some (negsuc n)) e = absurd (cc)
hour_in_range_sound h (some (pos n)) e =
    (n, ground arith, sym (text_eq→eq (itoa n) h (ground arith)))

hour_in_range_complete : (n : ℕ) → n ≤ 23 → hour_in_range (itoa n) (atoi (itoa n)) ≡ true
unfolding itoa_int
hour_in_range_complete n small =
    rw (atoi-itoa n (omega arith)) (ground (arith, text_eq_refl (itoa n)))

segments_of_sound :
    (v : Text) (c : Cut) (segs : List Text)
    → IsCut b'/' v c
    → segments_of c ≡ ok segs
    → IsSnapshot segs × (join b'/' segs ≡ v)
unfolding join
segments_of_sound v c segs (lacks, whole) e = elim (Bool-cases (is_date c.before)) [
  | inr bad ↦ absurd (ground arith)
  | inl dated ↦ elim (Bool-cases c.found) [
    | inr plain ↦
        let same : segs ≡ c.before ∷ [] = ground arith in rw same (day c.before dated, ground arith)
    | inl slash ↦ elim (Bool-cases (hour_in_range c.after (atoi c.after))) [
      | inr wrong ↦ absurd (ground arith)
      | inl right ↦
          let (n, small, printed) = hour_in_range_sound c.after (atoi c.after) right in
          let same : segs ≡ c.before ∷ itoa n ∷ [] = ground arith in
          rw same (hour c.before n dated small, ground arith)
    ]
  ]
]

-- No date is the word `latest`.
is_date-ne-latest : (date : Text) → is_date date ≡ true → text_eq date (codes "latest") ≡ false
unfolding is_date text_eq
is_date-ne-latest (y ∷ e ∷ a ∷ r ∷ p ∷ m ∷ n ∷ q ∷ d ∷ f ∷ []) h = ground arith
is_date-ne-latest _ h = absurd (cc)

slash-ne-latest :
    (date rest : Text)
    → is_date date ≡ true
    → text_eq (date ++ b'/' ∷ rest) (codes "latest") ≡ false
unfolding is_date text_eq
slash-ne-latest (y ∷ e ∷ a ∷ r ∷ p ∷ m ∷ n ∷ q ∷ d ∷ f ∷ []) rest h = ground arith
slash-ne-latest _ rest h = absurd (cc)

segments_complete :
    (v : Text) (segs : List Text)
    → IsSnapshot segs
    → join b'/' segs ≡ v
    → (if text_eq v (codes "latest") then ok (codes "latest" ∷ []) else segments_of (cut b'/' v))
      ≡ ok segs
unfolding join
segments_complete v segs latest e = rw (sym e) (unfold text_eq in refl)
segments_complete v segs (day date dated) e =
    rw (sym e, is_date-ne-latest date dated, cut_miss b'/' date (is_date-Lacks date dated), dated)
      refl
segments_complete v segs (hour date n dated small) e =
    rw
      (
        sym e,
        slash-ne-latest date (itoa n) dated,
        cut_hit b'/' date (itoa n) (is_date-Lacks date dated),
        dated,
        hour_in_range_complete n small,
      )
      refl

-- A snapshot's text is accepted exactly if it spells, between blanks, `latest`, a date of the
-- calendar, or such a date, a slash and the plain print of an hour from 0 to 23; the result is
-- these parts, so joined by slashes they are the text, and nothing else reaches the path.
pub snapshot_segments_iff :
    (value : Text) (segs : List Text)
    → (snapshot_segments value ≡ ok segs) ↔ (IsSnapshot segs × (join b'/' segs ≡ trim_space value))
unfolding snapshot_segments
snapshot_segments_iff value segs = (forward, λ h. segments_complete (trim_space value) segs h.0 h.1)
  where
    forward :
        snapshot_segments value ≡ ok segs → IsSnapshot segs × (join b'/' segs ≡ trim_space value)
    forward e = elim (text_eq-cases (trim_space value) (codes "latest")) [
      | inl (hit, same) ↦
          let segs_latest : segs ≡ codes "latest" ∷ [] = ground arith in
          rw segs_latest (latest, unfold join in sym same)
      | inr (miss, other) ↦
          segments_of_sound (trim_space value) (cut b'/' (trim_space value)) segs
            (cut-IsCut b'/' (trim_space value)) (rw miss at e)
    ]
