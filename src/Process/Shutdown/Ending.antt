-- ===== src/Process/Shutdown/Ending.antt =====
-- serve ends: every event brings it nearer to its return.
use synthient_mcp.Prelude.{
  ◌+◌, ◌≤◌, ◌<◌, List, [], ◌∷◌, ◌≡◌, inl, inr, Bool, true, false, some, length, Option-cases, arith,
}
use synthient_mcp.Process.Shutdown.{
  Serving, running, sent, received, Main, selecting, shutting, awaiting, returned, State, Event,
  signal, fail, close, take_error, take_signal, end_shutdown, receive, step, run, left,
}

abbrev pub at : Main → Serving → Bool → State
at main serving cancelled = record { main = main; serving = serving; cancelled = cancelled }

-- Every event brings the end nearer.
step-left :
    (e : Event) (m : Main) (v : Serving) (c : Bool) (t : State)
    → step e (at m v c) ≡ some t
    → left t < left (at m v c)
unfolding step
step-left signal m v false t h = ground arith
step-left signal m v true t h = absurd (ground arith)
step-left (fail code) m running c t h = ground arith
step-left (fail code) m (sent e) c t h = absurd (ground arith)
step-left (fail code) m (received e) c t h = absurd (ground arith)
step-left close selecting running c t h = absurd (ground arith)
step-left close shutting running c t h = ground arith
step-left close (awaiting g) running c t h = ground arith
step-left close (returned r) running c t h = absurd (ground arith)
step-left close m (sent e) c t h = absurd (ground arith)
step-left close m (received e) c t h = absurd (ground arith)
step-left take_error selecting (sent e) c t h = ground arith
step-left take_error selecting running c t h = absurd (ground arith)
step-left take_error selecting (received e) c t h = absurd (ground arith)
step-left take_error shutting v c t h = absurd (ground arith)
step-left take_error (awaiting g) v c t h = absurd (ground arith)
step-left take_error (returned r) v c t h = absurd (ground arith)
step-left take_signal selecting v true t h = ground arith
step-left take_signal selecting v false t h = absurd (ground arith)
step-left take_signal shutting v c t h = absurd (ground arith)
step-left take_signal (awaiting g) v c t h = absurd (ground arith)
step-left take_signal (returned r) v c t h = absurd (ground arith)
step-left (end_shutdown graceful) shutting v c t h = ground arith
step-left (end_shutdown graceful) selecting v c t h = absurd (ground arith)
step-left (end_shutdown graceful) (awaiting g) v c t h = absurd (ground arith)
step-left (end_shutdown graceful) (returned r) v c t h = absurd (ground arith)
step-left receive (awaiting g) (sent e) c t h = ground arith
step-left receive (awaiting g) running c t h = absurd (ground arith)
step-left receive (awaiting g) (received e) c t h = absurd (ground arith)
step-left receive selecting v c t h = absurd (ground arith)
step-left receive shutting v c t h = absurd (ground arith)
step-left receive (returned r) v c t h = absurd (ground arith)

pub run-left :
    (events : List Event) (s t : State) → run events s ≡ some t → length events + left t ≤ left s
unfolding run
run-left [] s t h = let same : s ≡ t = ground arith in rw same (omega arith)
run-left (e ∷ events) s t h = elim (Option-cases (step e s)) [
  | inl stuck ↦ absurd (ground arith)
  | inr (next, taken) ↦
      let nearer = step-left e s.main s.serving s.cancelled next taken in
      let rest = run-left events next t (rw taken at h) in omega (arith, nearer, rest)
]
