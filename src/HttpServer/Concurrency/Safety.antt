-- ===== src/HttpServer/Concurrency/Safety.antt =====
-- What holds of the server in every interleaving of its requests.
use synthient_mcp.Prelude.{
  ℕ, suc, ◌+◌, ◌-◌, ◌≤◌, ◌<◌, List, [], ◌∷◌, ◌≡◌, refl, ◌≢◌, ◌↔◌, some, length, arith, inl, inr,
  ◌∙◌,
}
use synthient_mcp.Text.{Text}
use synthient_mcp.Text.Equality.{text_eq-cases, text_eq_refl}
use synthient_mcp.GoMap.{GoMap, lookup}
use synthient_mcp.HttpServer.Concurrency.{
  inflight_of, admitted, begin, finish, acquire, release, Limits, Server, idle, count, remove, Step,
  enter, turn_away, start, deny, stop, leave, Reach, here, next,
}
use synthient_mcp.HttpServer.Concurrency.Counting.{
  IsTidy, insert-IsTidy, finish-IsTidy, begin_admitted, begin_rejected, inflight_of-insert_self,
  inflight_of-insert_ne, finish_self, finish_ne, count_cons_self, count_cons_ne, count-remove_self,
  count-remove_ne, length-remove,
}

-- The counts of the inner limiter are those of the handlers that run, each within its limit.
record IsCounted (limit : ℕ) (m : GoMap ℕ) (running : List Text) : Type 0 where
  tidy : IsTidy m
  counted : (p : Text) → inflight_of p m ≡ count p running
  capped : (p : Text) → count p running ≤ limit

record Inv (limits : Limits) (s : Server) : Type 0 where
  tokens : s.used ≡ s.waiting + length s.running
  within : s.used ≤ limits.total
  inner : IsCounted limits.per_principal s.inflight s.running

start-IsCounted :
    (limit : ℕ) (m m' : GoMap ℕ) (running : List Text) (p : Text)
    → begin limit m p ≡ (m', admitted)
    → IsCounted limit m running
    → IsCounted limit m' (p ∷ running)
start-IsCounted limit m m' running p e i =
    let (named, room, same) = begin_admitted limit m m' p e in
    rw same (record {
      tidy = insert-IsTidy p (suc (inflight_of p m)) m (omega arith) i.tidy;
      counted = λ q. elim (text_eq-cases q p) [
        | inl (hit, eq) ↦ rw eq (
            omega (
              arith,
              inflight_of-insert_self p (suc (inflight_of p m)) m,
              count_cons_self p running,
              i.counted p,
            ))
        | inr (miss, ne) ↦ omega (
          arith,
          inflight_of-insert_ne p q (suc (inflight_of p m)) m ne,
          count_cons_ne p q running ne,
          i.counted q,
        )
      ];
      capped = λ q. elim (text_eq-cases q p) [
        | inl (hit, eq) ↦ rw eq (omega (arith, count_cons_self p running, i.counted p))
        | inr (miss, ne) ↦ omega (arith, count_cons_ne p q running ne, i.capped q)
      ];
    })

stop-IsCounted :
    (limit : ℕ) (m : GoMap ℕ) (running : List Text) (p : Text)
    → IsCounted limit m running
    → IsCounted limit (finish m p) (remove p running)
stop-IsCounted limit m running p i = record {
  tidy = finish-IsTidy p m i.tidy;
  counted = λ q. elim (text_eq-cases q p) [
    | inl (hit, eq) ↦
        rw eq (omega (arith, finish_self p m, count-remove_self p running, i.counted p))
    | inr (miss, ne) ↦
        omega (arith, finish_ne p q m ne, count-remove_ne p q running ne, i.counted q)
  ];
  capped = λ q. elim (text_eq-cases q p) [
    | inl (hit, eq) ↦ rw eq (omega (arith, count-remove_self p running, i.capped p))
    | inr (miss, ne) ↦ omega (arith, count-remove_ne p q running ne, i.capped q)
  ];
}

acquire_admitted :
    (limit used after : ℕ)
    → acquire limit used ≡ (after, admitted)
    → (after ≡ suc used) × (used < limit)
unfolding acquire
acquire_admitted limit used after e = ground arith

release_le : (n : ℕ) → release n ≡ n - 1
unfolding release
release_le n = refl

Step-Inv : {limits : Limits} {s t : Server} → Step limits s t → Inv limits s → Inv limits t
Step-Inv {limits} {s} (enter used e same) i =
    let (after, room) = acquire_admitted limits.total s.used used e in
    rw same (record { tokens = omega (arith, i.tokens); within = omega arith; inner = i.inner })
Step-Inv (turn_away e same) i = rw same i
Step-Inv {limits} {s} (start p m waits e same) i = rw same (record {
  tokens = omega (arith, i.tokens);
  within = i.within;
  inner = start-IsCounted limits.per_principal s.inflight m s.running p e i.inner;
})
Step-Inv {limits} {s} (deny p m v ne e same) i =
    let kept = begin_rejected limits.per_principal s.inflight m p v e ne in
    rw (same, kept) (record { tokens = i.tokens; within = i.within; inner = i.inner })
Step-Inv {limits} {s} (stop p runs same) i = rw same (record {
  tokens = omega (arith, i.tokens, length-remove p s.running runs);
  within = i.within;
  inner = stop-IsCounted limits.per_principal s.inflight s.running p i.inner;
})
Step-Inv {limits} {s} (leave waits same) i = rw same (record {
  tokens = omega (arith, i.tokens, release_le s.used);
  within = omega (arith, i.within, release_le s.used);
  inner = i.inner;
})

Reach-Inv : {limits : Limits} {s : Server} → Reach limits s → Inv limits s
Reach-Inv here = record {
  tokens = omega arith;
  within = omega arith;
  inner = record {
    tidy = record { unique = tt; positive = tt };
    counted = λ p. unfold inflight_of count in refl;
    capped = λ p. unfold count in omega arith;
  };
}
Reach-Inv (next r st) = Step-Inv st (Reach-Inv r)

-- In every interleaving, at most `total` requests hold a token, so at most `total` handlers run,
-- and of no principal do more than `per_principal` run.
pub Reach-bounded :
    (limits : Limits) (s : Server) (p : Text)
    → Reach limits s
    → (s.used ≤ limits.total)
      × (length s.running ≤ s.used)
      × (count p s.running ≤ limits.per_principal)
Reach-bounded limits s p r =
    let i = Reach-Inv r in (i.within, omega (arith, i.tokens), i.inner.capped p)

nil_of_zero : (m : GoMap ℕ) → IsTidy m → ((p : Text) → inflight_of p m ≡ 0) → m ≡ []
unfolding inflight_of
nil_of_zero [] t zeros = refl
nil_of_zero ((k, n) ∷ m) t zeros =
    let found : lookup k ((k, n) ∷ m) ≡ some n = unfold lookup in ground (arith, text_eq_refl k) in
    absurd (omega (arith, t.positive.0, rw found at (zeros k)))

-- Whatever requests came before and however they ended, a server with no request left is as at its
-- start: no token is lost, and the map holds no entry.
pub Reach-drained :
    (limits : Limits) (s : Server) → Reach limits s → s.waiting ≡ 0 → s.running ≡ [] → s ≡ idle
Reach-drained limits s r none_waits none_runs =
    let i = Reach-Inv r in
    let zero : (p : Text) → inflight_of p s.inflight ≡ 0 =
      λ p. i.inner.counted p ∙ (rw none_runs (unfold count in refl)) in
    let empty = nil_of_zero s.inflight i.inner.tidy zero in
    ground (arith, i.tokens, none_waits, none_runs, empty)

-- In every reachable state, the inner limiter admits a request of a named principal exactly if
-- fewer than the limit of its handlers run.
pub Reach-admits_iff :
    (limits : Limits) (s : Server) (p : Text)
    → Reach limits s
    → p ≢ []
    → ((begin limits.per_principal s.inflight p).1 ≡ admitted)
      ↔ (count p s.running < limits.per_principal)
unfolding begin
Reach-admits_iff limits s [] r named = absurd (named refl)
Reach-admits_iff limits s (c ∷ p) r named =
    let counted = (Reach-Inv r).inner.counted (c ∷ p) in
    (λ e. ground (arith, counted), λ h. ground (arith, counted))
