-- ===== src/McpServer/Snapshot.antt =====
-- snapshotSegments of go/internal/mcpserver/feeds.go, with the dates that `time.Parse` accepts in
-- the layout 2006-01-02.
pub mod Laws
use synthient_mcp.Prelude.{
  Result, ok, err, ◌>>=◌, ℕ, suc, ◌+◌, ◌-◌, ◌*◌, ◌%◌, List, [], ◌∷◌, Bool, true, false, not, ◌&&◌,
  ◌||◌, Option, none, some, leb, ltb, ◌==◌, if◌then◌else◌,
}
use synthient_mcp.Text.{Text, codes, trim_space, text_eq, Cut, cut}
use synthient_mcp.Text.Decimal.{is_digit, ℤ, pos, negsuc, atoi, itoa_int}

abbrev leap_year : ℕ → Bool
leap_year y = y % 4 == 0 && (not (y % 100 == 0) || y % 400 == 0)

abbrev days_in : ℕ → ℕ → ℕ
days_in month year =
    if month == 2
    then (if leap_year year then 29 else 28)
    else if month == 4 || month == 6 || month == 9 || month == 11
    then 30
    else 31

abbrev two : ℕ → ℕ → ℕ
two a b = (a - b'0') * 10 + (b - b'0')

abbrev is_calendar_date : ℕ → ℕ → ℕ → Bool
is_calendar_date year month day =
    leb 1 month && leb month 12 && (leb 1 day && leb day (days_in month year))

-- Four digits, two digits and two digits with dashes between them, and a date of the calendar.
unfoldable pub is_date : Text → Bool
is_date (y ∷ e ∷ a ∷ r ∷ p ∷ m ∷ n ∷ q ∷ d ∷ f ∷ []) =
    (is_digit y
      && is_digit e
      && is_digit a
      && is_digit r
      && p == b'-'
      && is_digit m
      && is_digit n
      && q == b'-'
      && is_digit d
      && is_digit f)
    && is_calendar_date (two y e * 100 + two a r) (two m n) (two d f)
is_date _ = false

pub data Error : Type 0 where
  bad_date bad_hour : Error

-- The tests on the hour: `hour` is the print of a number from 0 to 23.
abbrev pub hour_in_range : Text → Option ℤ → Bool
hour_in_range hour none = false
hour_in_range hour (some (negsuc n)) = false
hour_in_range hour (some (pos n)) = leb n 23 && text_eq (itoa_int (pos n)) hour

abbrev pub segments_of : Cut → Result Error (List Text)
segments_of c =
    if not (is_date c.before)
    then err bad_date
    else if not c.found
    then ok (c.before ∷ [])
    else if hour_in_range c.after (atoi c.after)
    then ok (c.before ∷ c.after ∷ [])
    else err bad_hour

unfoldable pub snapshot_segments : Text → Result Error (List Text)
unfolding trim_space text_eq cut is_date atoi itoa_int
snapshot_segments value =
    if text_eq (trim_space value) (codes "latest")
    then ok (codes "latest" ∷ [])
    else segments_of (cut b'/' (trim_space value))
