-- ===== src/Process/Shutdown/Returns.antt =====
-- What serve returns, and that every run with a signal ends.
use synthient_mcp.Prelude.{
  ◌≤◌, List, [], ◌∷◌, ◌≡◌, refl, subst, inl, inr, Bool, true, false, Option, none, some, length,
  Option-cases, arith,
}
use synthient_mcp.Process.Shutdown.{
  ServeError, closed, other, Failure, serve_failed, shutdown_failed, Serving, running, sent,
  received, Main, selecting, shutting, awaiting, returned, State, start, Event, signal, fail, close,
  take_error, take_signal, end_shutdown, receive, final_verdict, step, run,
}
use synthient_mcp.Process.Shutdown.Ending.{at, run-left}

-- What holds of every state that is reached.
abbrev pub Never : Type 0
Never = true ≡ false

abbrev pub IsVerdict : Option Failure → ServeError → Bool → Type 0
IsVerdict none e c = (e ≡ closed) × (c ≡ true)
IsVerdict (some (serve_failed code)) e c = e ≡ other code
IsVerdict (some shutdown_failed) e c = c ≡ true

abbrev pub IsSound : Main → Serving → Bool → Type 0
IsSound selecting running c = Unit {0}
IsSound selecting (sent closed) c = Never
IsSound selecting (sent (other code)) c = Unit {0}
IsSound selecting (received e) c = Never
IsSound shutting (received e) c = Never
IsSound shutting v c = c ≡ true
IsSound (awaiting g) (received e) c = Never
IsSound (awaiting g) v c = c ≡ true
IsSound (returned r) (received e) c = IsVerdict r e c
IsSound (returned r) v c = Never

abbrev pub AreSound : State → Type 0
AreSound s = IsSound s.main s.serving s.cancelled

landed : {s t : State} → (let o : Option State = some s in o ≡ some t) → AreSound s → AreSound t
landed {s} {t} e h = let same : s ≡ t = ground arith in subst AreSound same h

-- A signal changes nothing that holds.
signalled : (m : Main) (v : Serving) → IsSound m v false → IsSound m v true
signalled selecting running h = tt
signalled selecting (sent closed) h = h
signalled selecting (sent (other code)) h = tt
signalled selecting (received e) h = h
signalled shutting running h = refl
signalled shutting (sent e) h = refl
signalled shutting (received e) h = h
signalled (awaiting g) running h = refl
signalled (awaiting g) (sent e) h = refl
signalled (awaiting g) (received e) h = h
signalled (returned r) running h = h
signalled (returned r) (sent e) h = h
signalled (returned none) (received e) h = (h.0, refl)
signalled (returned (some (serve_failed code))) (received e) h = h
signalled (returned (some shutdown_failed)) (received e) h = refl

final_sound : (g : Bool) (e : ServeError) (c : Bool) → c ≡ true → IsVerdict (final_verdict g e) e c
final_sound false e c h = h
final_sound true closed c h = (refl, h)
final_sound true (other code) c h = refl

step_sound :
    (e : Event) (m : Main) (v : Serving) (c : Bool) (t : State)
    → IsSound m v c
    → step e (at m v c) ≡ some t
    → AreSound t
unfolding step
step_sound signal m v false t h e = landed e (signalled m v h)
step_sound signal m v true t h e = absurd (ground arith)
step_sound (fail code) selecting running c t h e = landed e tt
step_sound (fail code) shutting running c t h e = landed e h
step_sound (fail code) (awaiting g) running c t h e = landed e h
step_sound (fail code) (returned r) running c t h e = absurd (cc)
step_sound (fail code) m (sent x) c t h e = absurd (ground arith)
step_sound (fail code) m (received x) c t h e = absurd (ground arith)
step_sound close selecting running c t h e = absurd (ground arith)
step_sound close shutting running c t h e = landed e h
step_sound close (awaiting g) running c t h e = landed e h
step_sound close (returned r) running c t h e = absurd (ground arith)
step_sound close m (sent x) c t h e = absurd (ground arith)
step_sound close m (received x) c t h e = absurd (ground arith)
step_sound take_error selecting (sent closed) c t h e = absurd (cc)
step_sound take_error selecting (sent (other code)) c t h e = landed e refl
step_sound take_error selecting running c t h e = absurd (ground arith)
step_sound take_error selecting (received x) c t h e = absurd (ground arith)
step_sound take_error shutting v c t h e = absurd (ground arith)
step_sound take_error (awaiting g) v c t h e = absurd (ground arith)
step_sound take_error (returned r) v c t h e = absurd (ground arith)
step_sound take_signal selecting running true t h e = landed e refl
step_sound take_signal selecting (sent x) true t h e = landed e refl
step_sound take_signal selecting (received x) true t h e = absurd (cc)
step_sound take_signal selecting v false t h e = absurd (ground arith)
step_sound take_signal shutting v c t h e = absurd (ground arith)
step_sound take_signal (awaiting g) v c t h e = absurd (ground arith)
step_sound take_signal (returned r) v c t h e = absurd (ground arith)
step_sound (end_shutdown g) shutting running c t h e = landed e h
step_sound (end_shutdown g) shutting (sent x) c t h e = landed e h
step_sound (end_shutdown g) shutting (received x) c t h e = absurd (cc)
step_sound (end_shutdown g) selecting v c t h e = absurd (ground arith)
step_sound (end_shutdown g) (awaiting k) v c t h e = absurd (ground arith)
step_sound (end_shutdown g) (returned r) v c t h e = absurd (ground arith)
step_sound receive (awaiting g) (sent x) c t h e = landed e (final_sound g x c h)
step_sound receive (awaiting g) running c t h e = absurd (ground arith)
step_sound receive (awaiting g) (received x) c t h e = absurd (ground arith)
step_sound receive selecting v c t h e = absurd (ground arith)
step_sound receive shutting v c t h e = absurd (ground arith)
step_sound receive (returned r) v c t h e = absurd (ground arith)

run_sound : (events : List Event) (s t : State) → AreSound s → run events s ≡ some t → AreSound t
unfolding run
run_sound [] s t h e = landed e h
run_sound (x ∷ events) s t h e = elim (Option-cases (step x s)) [
  | inl stuck ↦ absurd (ground arith)
  | inr (next, taken) ↦
      run_sound events next t (step_sound x s.main s.serving s.cancelled next h taken)
        (rw taken at e)
]

returned-IsVerdict :
    (r : Option Failure) (v : Serving) (c : Bool)
    → IsSound (returned r) v c
    → (e : ServeError) × (v ≡ received e) × IsVerdict r e c
returned-IsVerdict r running c h = absurd (cc)
returned-IsVerdict r (sent e) c h = absurd (cc)
returned-IsVerdict r (received e) c h = (e, refl, h)

-- When serve has returned, whatever happened before in whatever order, the error of Serve has been
-- received and decides the result: nil only after a signal, with ErrServerClosed; an error of Serve
-- is that very error; and the failure of a graceful shutdown only after a signal.
pub run-IsVerdict :
    (events : List Event) (s : State) (r : Option Failure)
    → run events start ≡ some s
    → s.main ≡ returned r
    → (e : ServeError) × (s.serving ≡ received e) × IsVerdict r e s.cancelled
run-IsVerdict events s r e at_end =
    let sound : IsSound s.main s.serving s.cancelled = run_sound events start s tt e in
    returned-IsVerdict r s.serving s.cancelled (rw at_end at sound)

-- Where no event can happen any more although there was a signal, serve has returned.
stuck_returned :
    (m : Main) (v : Serving)
    → IsSound m v true
    → ((e : Event) → step e (at m v true) ≡ none)
    → (r : Option Failure) × (m ≡ returned r)
unfolding step
stuck_returned selecting v h stuck = let never = stuck take_signal in absurd (ground arith)
stuck_returned shutting v h stuck = let never = stuck (end_shutdown true) in absurd (ground arith)
stuck_returned (awaiting g) running h stuck = let never = stuck close in absurd (ground arith)
stuck_returned (awaiting g) (sent e) h stuck = let never = stuck receive in absurd (ground arith)
stuck_returned (awaiting g) (received e) h stuck = absurd (cc)
stuck_returned (returned r) v h stuck = (r, refl)

-- The process ends: a run in which there was a signal and which no event can continue, in whatever
-- order its events came, has at most six events, and serve has returned; it never waits for ever for
-- its goroutine or for the channel.
pub run_ends :
    (events : List Event) (s : State)
    → run events start ≡ some s
    → s.cancelled ≡ true
    → ((e : Event) → step e s ≡ none)
    → (length events ≤ 6) × (r : Option Failure) × (s.main ≡ returned r)
run_ends events s e signalled stuck =
    let sound : IsSound s.main s.serving s.cancelled = run_sound events start s tt e in
    let (r, at_end) =
      stuck_returned s.main s.serving (rw signalled at sound)
        (λ x. subst (λ c. step x (at s.main s.serving c) ≡ none) signalled (stuck x)) in
    (omega (arith, run-left events start s e), r, at_end)
