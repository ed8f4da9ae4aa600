-- ===== src/Synthient/Stream/Whole.antt =====
-- A response within the limits is sampled as an independent description of the sample says.
use synthient_mcp.Prelude.{
  ℕ, zero, suc, leb→le, ◌+◌, ◌-◌, ◌≤◌, ◌<◌, ◌⊎◌, List, [], ◌∷◌, ◌++◌, ◌≡◌, refl, sym, ◌∙◌, ap, true,
  false, Option, none, some, ltb, leb, if◌then◌else◌, length, length-append, take, append-nil,
  append_assoc, arith, Bool-cases, inl, inr,
}
use synthient_mcp.Text.{Text, trim_space}
use synthient_mcp.Synthient.Sanitize.{sanitize_object}
use synthient_mcp.Synthient.Stream.{
  Event, matches_filters, ScanEnd, finished, stopped, failed, Sample, Progress, at_end, done,
  take_event, take_decoded, take_line, sample_from, sample_stream, max_stream_read_bytes,
}

-- The bytes of the lines, without blanks at their ends.
abbrev pub total : List Text → ℕ
total [] = 0
total (raw ∷ raws) = length (trim_space raw) + total raws

-- Every line that is not blank decodes.
abbrev pub Decodes : (Text → Option Event) → List Text → Type 0
Decodes decode [] = Unit
Decodes decode (raw ∷ raws) =
    ((trim_space raw ≡ []) ⊎ ((event : Event) × (decode (trim_space raw) ≡ some event)))
    × Decodes decode raws

fits_room : (limit n : ℕ) → n ≤ limit → ltb limit n ≡ false
fits_room limit n h = ground arith

lt_of_leb : (m n : ℕ) → leb m n ≡ false → n < m
lt_of_leb m n h = ground arith

module _ (decode : Text → Option Event) (api_key : Text) (filters : List (Text × Text)) where
  abbrev kept_event : Option Event → List Event → List Event
  kept_event none later = later
  kept_event (some event) later =
      if matches_filters (sanitize_object api_key event) filters
      then sanitize_object api_key event ∷ later
      else later

  abbrev kept_line : Text → List Event → List Event
  kept_line [] later = later
  kept_line (c ∷ line) later = kept_event (decode (c ∷ line)) later

  -- All events of a response that pass the filters, sanitised.
  abbrev pub wanted : List Text → List Event
  wanted [] = []
  wanted (raw ∷ raws) = kept_line (trim_space raw) (wanted raws)

  module _ (count output_limit : ℕ) (scan_end : ScanEnd) where
    record Fits (p : Progress) (bytes : ℕ) : Type 0 where
      few : length p.events < count
      read : p.read_bytes + bytes ≤ max_stream_read_bytes
      shown : p.output_bytes + bytes ≤ output_limit

    record IsWhole (p : Progress) (later : List Event) (s : Sample) : Type 0 where
      whole : s.events ≡ p.events ++ take (count - length p.events) later
      complete : s.truncated ≡ false

    take_nil : (n : ℕ) → take {A = Event} n [] ≡ []
    take_nil zero = refl
    take_nil (suc n) = refl

    at_end-IsWhole : (p : Progress) → IsWhole p [] (at_end scan_end p.events)
    at_end-IsWhole p = record {
      whole =
          same scan_end
          ∙ sym (append-nil p.events)
          ∙ ap (λ es. p.events ++ es) (sym (take_nil (count - length p.events)));
      complete = uncut scan_end;
    }
      where
        same : (e : ScanEnd) → (at_end e p.events).events ≡ p.events
        same finished = refl
        same stopped = refl
        same failed = refl

        uncut : (e : ScanEnd) → (at_end e p.events).truncated ≡ false
        uncut finished = refl
        uncut stopped = refl
        uncut failed = refl

    -- The step that takes an event: `n` more are asked for.
    take_one :
        (p : Progress) (q : Progress) (e : Event) (later : List Event) (s : Sample)
        → length p.events < count
        → q.events ≡ p.events ++ e ∷ []
        → IsWhole q later s
        → IsWhole p (e ∷ later) s
    take_one p q e later s few grown w =
        let left : count - length p.events ≡ suc (count - length q.events) =
          omega (arith, few, ap length grown, length-append p.events (e ∷ [])) in
        record {
          whole = w.whole ∙ rw (left, grown) (append_assoc p.events (e ∷ []) _);
          complete = w.complete;
        }

    module _ (p : Progress) (bytes : ℕ) (later : List Event) (continue : Progress → Sample)
        (few : length p.events < count) (read : p.read_bytes + bytes ≤ max_stream_read_bytes)
        (rest : (next : Progress) → Fits next bytes → IsWhole next later (continue next)) where
      take_event-IsWhole :
          (size : ℕ) (event : Event)
          → p.output_bytes + (size + bytes) ≤ output_limit
          → IsWhole p
              (if matches_filters event filters then event ∷ later else later)
              (take_event decode api_key count output_limit filters scan_end p size event continue)
      unfolding take_event
      take_event-IsWhole size event shown = elim (Bool-cases (matches_filters event filters)) [
        | inr differs ↦
            rw differs (rest p (record { few = few; read = read; shown = omega (arith, shown) }))
        | inl match ↦
            rw (match, room)
              (elim (Bool-cases (leb count (length (p.events ++ event ∷ [])))) [
                | inl full ↦ rw full (take_one p grown event later _ few refl (ends full))
                | inr more ↦
                    rw more (take_one p grown event later _ few refl (rest grown (goes_on more)))
              ])
      ]
        where
          grown : Progress
          grown = record p { events = p.events ++ event ∷ []; output_bytes = p.output_bytes + size }

          room : ltb output_limit (p.output_bytes + size) ≡ false
          room = fits_room output_limit (p.output_bytes + size) (omega (arith, shown))

          goes_on : leb count (length (p.events ++ event ∷ [])) ≡ false → Fits grown bytes
          goes_on more = record {
            few = lt_of_leb _ _ more;
            read = read;
            shown = omega (arith, shown);
          }

          ends :
              leb count (length (p.events ++ event ∷ [])) ≡ true
              → IsWhole grown later (done false (p.events ++ event ∷ []))
          ends full =
              let none_left : count - length (p.events ++ event ∷ []) ≡ 0 =
                omega (arith, leb→le _ _ full) in
              record {
                whole = rw none_left (sym (append-nil (p.events ++ event ∷ [])));
                complete = refl;
              }

      take_line-IsWhole :
          (line : Text)
          → (line ≡ []) ⊎ ((event : Event) × (decode line ≡ some event))
          → p.output_bytes + (length line + bytes) ≤ output_limit
          → IsWhole p
              (kept_line line later)
              (take_line decode api_key count output_limit filters scan_end p line continue)
      unfolding take_line take_decoded
      take_line-IsWhole [] h shown =
          rest p (record { few = few; read = read; shown = omega (arith, shown) })
      take_line-IsWhole (c ∷ line) (inl blank) shown = absurd (cc)
      take_line-IsWhole (c ∷ line) (inr (event, decoded)) shown =
          rw decoded (take_event-IsWhole (length (c ∷ line)) (sanitize_object api_key event) shown)

    sample_from-IsWhole :
        (p : Progress) (raws : List Text)
        → Decodes decode raws
        → Fits p (total raws)
        → IsWhole p
            (wanted raws)
            (sample_from decode api_key count output_limit filters scan_end p raws)
    unfolding sample_from
    sample_from-IsWhole p [] h f = at_end-IsWhole p
    sample_from-IsWhole p (raw ∷ raws) h f =
        rw
          (fits_room max_stream_read_bytes (p.read_bytes + length (trim_space raw))
            (omega (arith, f.read)))
          (uncounted (
            take_line-IsWhole q (total raws) (wanted raws) _ f.few (omega (arith, f.read))
              (λ next g. sample_from-IsWhole next raws h.1 g) (trim_space raw) h.0 f.shown))
      where
        q : Progress
        q = record p { read_bytes = p.read_bytes + length (trim_space raw) }

        uncounted : {later : List Event} {s : Sample} → IsWhole q later s → IsWhole p later s
        uncounted w = record { whole = w.whole; complete = w.complete }

-- When at least one event is asked for, the whole response is within both limits, and each of its
-- lines is blank or decodes, the sample is the first `count` of its events that pass the filters,
-- sanitised, and it is not marked as truncated.
pub sample_stream-wanted :
    (decode : Text → Option Event) (api_key : Text) (count output_limit : ℕ)
    (filters : List (Text × Text)) (scan_end : ScanEnd) (raws : List Text)
    → 1 ≤ count
    → total raws ≤ max_stream_read_bytes
    → total raws ≤ output_limit
    → Decodes decode raws
    → let s = sample_stream decode api_key count output_limit filters scan_end raws in
      (s.events ≡ take count (wanted decode api_key filters raws)) × (s.truncated ≡ false)
unfolding sample_stream
sample_stream-wanted decode api_key count output_limit filters scan_end raws asked read shown
      decodes =
    let start : Progress = record { events = []; read_bytes = 0; output_bytes = 0 } in
    let w =
      sample_from-IsWhole decode api_key filters count output_limit scan_end start raws decodes
        (record { few = asked; read = omega (arith, read); shown = omega (arith, shown) }) in
    let all_left : count - 0 ≡ count = omega arith in (rw all_left at w.whole, w.complete)
