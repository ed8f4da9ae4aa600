-- ===== src/Synthient/Stream/Bounds.antt =====
-- What a sample holds, and how large it can be.
use synthient_mcp.Prelude.{
  ℕ, ◌+◌, ◌≤◌, ◌<◌, List, [], ◌∷◌, ◌++◌, ◌≡◌, refl, sym, ◌∙◌, ◌⊎◌, ap, true, false, Option, some,
  ltb, leb, length, length-append, append-nil, append_assoc, arith, subst, inl, inr, Bool-cases,
  Option-cases,
}
use synthient_mcp.Text.{Text, trim_space}
use synthient_mcp.Synthient.Sanitize.{sanitize_object}
use synthient_mcp.Synthient.Stream.{
  Event, matches_filters, ScanEnd, finished, stopped, failed, Sample, Progress, at_end, take_event,
  take_decoded, take_line, sample_from, sample_stream, max_stream_read_bytes,
}

module _ (decode : Text → Option Event) (api_key : Text) (filters : List (Text × Text)) where
  -- The events are those of some of the lines, in their order: each decodes, is sanitised, and then
  -- passes the filters. The number is the size of those lines without blanks at their ends.
  pub data Taken : List Text → List Event → ℕ → Type 0 where
    rest_unread : {raws : List Text} → Taken raws [] 0
    passed_over :
        {raw : Text} {raws : List Text} {events : List Event} {size : ℕ}
        → Taken raws events size
        → Taken (raw ∷ raws) events size
    taken :
        {raw : Text} {raws : List Text} {events : List Event} {size : ℕ} (event e : Event)
        (whole : ℕ)
        → decode (trim_space raw) ≡ some event
        → e ≡ sanitize_object api_key event
        → matches_filters e filters ≡ true
        → whole ≡ length (trim_space raw) + size
        → Taken raws events size
        → Taken (raw ∷ raws) (e ∷ events) whole

module _ (decode : Text → Option Event) (api_key : Text) (count output_limit : ℕ)
    (filters : List (Text × Text)) (scan_end : ScanEnd) where
  -- What the rest of the loop adds to what it has.
  record Adds (p : Progress) (raws : List Text) (s : Sample) : Type 0 where
    events : List Event
    size : ℕ
    grown : s.events ≡ p.events ++ events
    from : Taken decode api_key filters raws events size
    fits : p.output_bytes ≤ output_limit → p.output_bytes + size ≤ output_limit
    counted : length p.events < count → length s.events ≤ count

  Adds-nothing :
      (p : Progress) (raws : List Text) (s : Sample) → s.events ≡ p.events → Adds p raws s
  Adds-nothing p raws s same = record {
    events = [];
    size = 0;
    grown = same ∙ sym (append-nil p.events);
    from = rest_unread;
    fits = λ h. omega arith;
    counted = λ h. rw same (omega arith);
  }

  passes_over :
      (p : Progress) (raw : Text) (raws : List Text) (s : Sample)
      → Adds p raws s
      → Adds p (raw ∷ raws) s
  passes_over p raw raws s a = record {
    events = a.events;
    size = a.size;
    grown = a.grown;
    from = passed_over a.from;
    fits = a.fits;
    counted = a.counted;
  }

  takes :
      (p q : Progress) (raw : Text) (raws : List Text) (event e : Event) (s : Sample)
      → decode (trim_space raw) ≡ some event
      → e ≡ sanitize_object api_key event
      → matches_filters e filters ≡ true
      → q.events ≡ p.events ++ e ∷ []
      → q.output_bytes ≡ p.output_bytes + length (trim_space raw)
      → p.output_bytes + length (trim_space raw) ≤ output_limit
      → length q.events < count
        ⊎ s.events ≡ q.events × (length p.events < count → length q.events ≤ count)
      → Adds q raws s
      → Adds p (raw ∷ raws) s
  takes p q raw raws event e s decoded cleaned matching longer larger room short a = record {
    events = e ∷ a.events;
    size = length (trim_space raw) + a.size;
    grown = a.grown ∙ ap (λ es. es ++ a.events) longer ∙ append_assoc p.events (e ∷ []) a.events;
    from = taken event e (length (trim_space raw) + a.size) decoded cleaned matching refl a.from;
    fits = λ h. omega (arith, a.fits (omega (arith, larger, room)), larger);
    counted = λ h. elim short [ inl few ↦ a.counted few | inr (same, bound) ↦ rw same (bound h) ];
  }

  module _ (p : Progress) (raw : Text) (raws : List Text) (continue : Progress → Sample)
      (rest : (next : Progress) → Adds next raws (continue next)) where
    take_event-Adds :
        (event e : Event)
        → decode (trim_space raw) ≡ some event
        → e ≡ sanitize_object api_key event
        → Adds p (raw ∷ raws) (
            take_event decode api_key count output_limit filters scan_end p
              (length (trim_space raw))
              e
              continue)
    unfolding take_event
    take_event-Adds event e decoded cleaned = elim (Bool-cases (matches_filters e filters)) [
      | inr differs ↦ rw differs (passes_over p raw raws _ (rest p))
      | inl match ↦
          rw match
            (elim (Bool-cases (ltb output_limit (p.output_bytes + length (trim_space raw)))) [
              | inl over ↦ rw over (Adds-nothing p (raw ∷ raws) _ refl)
              | inr room ↦ rw room (elim (Bool-cases (leb count (length (p.events ++ e ∷ [])))) [
                | inl full ↦ rw full (
                    takes p grown raw raws event e _ decoded cleaned match refl refl (fits room)
                      (inr (refl, λ h. omega (arith, length-append p.events (e ∷ []))))
                      (Adds-nothing grown raws _ refl))
                | inr few ↦ rw few (
                    takes p grown raw raws event e _ decoded cleaned match refl refl (fits room)
                      (inl (not_yet few)) (rest grown))
              ])
            ])
    ]
      where
        grown : Progress
        grown = record p {
          events = p.events ++ e ∷ [];
          output_bytes = p.output_bytes + length (trim_space raw);
        }

        fits :
            ltb output_limit (p.output_bytes + length (trim_space raw)) ≡ false
            → p.output_bytes + length (trim_space raw) ≤ output_limit
        fits h = ground arith

        not_yet :
            leb count (length (p.events ++ e ∷ [])) ≡ false → length (p.events ++ e ∷ []) < count
        not_yet h = ground arith

    take_line-Adds :
        (line : Text)
        → line ≡ trim_space raw
        → Adds p
            (raw ∷ raws)
            (take_line decode api_key count output_limit filters scan_end p line continue)
    unfolding take_line take_decoded
    take_line-Adds [] e = passes_over p raw raws _ (rest p)
    take_line-Adds (c ∷ line) e = elim (Option-cases (decode (c ∷ line))) [
      | inl none_here ↦ rw none_here (Adds-nothing p (raw ∷ raws) _ refl)
      | inr (event, found) ↦ rw found (
          subst
            (λ l. Adds p (raw ∷ raws) (
              take_event decode api_key count output_limit filters scan_end p (length l)
                (sanitize_object api_key event) continue))
            (sym e)
            (take_event-Adds event (sanitize_object api_key event)
              (subst (λ l. decode l ≡ some event) e found) refl))
    ]

  at_end-events : (e : ScanEnd) (events : List Event) → (at_end e events).events ≡ events
  at_end-events finished events = refl
  at_end-events stopped events = refl
  at_end-events failed events = refl

  counts_read :
      (p : Progress) (read : ℕ) (raws : List Text) (s : Sample)
      → Adds (record p { read_bytes = read }) raws s
      → Adds p raws s
  counts_read p read raws s a = record {
    events = a.events;
    size = a.size;
    grown = a.grown;
    from = a.from;
    fits = a.fits;
    counted = a.counted;
  }

  sample_from-Adds :
      (p : Progress) (raws : List Text)
      → Adds p raws (sample_from decode api_key count output_limit filters scan_end p raws)
  unfolding sample_from
  sample_from-Adds p [] = Adds-nothing p [] _ (at_end-events scan_end p.events)
  sample_from-Adds p (raw ∷ raws) =
      elim (Bool-cases (ltb max_stream_read_bytes (p.read_bytes + length (trim_space raw)))) [
        | inl over ↦ rw over (Adds-nothing p (raw ∷ raws) _ refl)
        | inr room ↦ rw room (
            counts_read p (p.read_bytes + length (trim_space raw)) (raw ∷ raws) _ (
              take_line-Adds (record p { read_bytes = p.read_bytes + length (trim_space raw) }) raw
                raws _ (λ next. sample_from-Adds next raws) (trim_space raw) refl))
      ]

-- For every response, when at least one event is asked
-- for, the events of SampleStream are, in their order, the sanitised form of lines of the response
-- that decode and whose sanitised form passes the filters. There are at most `count` of them, and
-- the sizes of their lines add up to at most the output limit.
pub sample_stream-Taken :
    (decode : Text → Option Event) (api_key : Text) (count output_limit : ℕ)
    (filters : List (Text × Text)) (scan_end : ScanEnd) (raws : List Text)
    → 1 ≤ count
    → let events = (sample_stream decode api_key count output_limit filters scan_end raws).events in
      ((size : ℕ) × (Taken decode api_key filters raws events size × size ≤ output_limit))
      × length events ≤ count
unfolding sample_stream
sample_stream-Taken decode api_key count output_limit filters scan_end raws some_asked =
    let start : Progress = record { events = []; read_bytes = 0; output_bytes = 0 } in
    let a = sample_from-Adds decode api_key count output_limit filters scan_end start raws in
    (
      (
        a.size,
        (
          subst (λ es. Taken decode api_key filters raws es a.size) (sym a.grown) a.from,
          omega (arith, a.fits (omega arith)),
        ),
      ),
      a.counted (omega (arith, some_asked)),
    )
