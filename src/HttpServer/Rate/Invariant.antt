-- ===== src/HttpServer/Rate/Invariant.antt =====
-- The invariant of the rate limiter.
use synthient_mcp.Prelude.{
  ℕ, suc, ◌+◌, ◌≤◌, ◌<◌, ◌⊎◌, [], ◌∷◌, ◌≢◌, none, length, arith, inl, inr, leb, Bool-cases,
  Option-cases,
}
use synthient_mcp.Text.{Text}
use synthient_mcp.GoMap.{GoMap, lookup, insert, delete, HasUniqueKeys}
use synthient_mcp.GoMap.Laws.{
  length-insert-le, length-insert_old, length-delete-le, length-prune-le, insert-HasUniqueKeys,
  delete-HasUniqueKeys, prune-HasUniqueKeys, Values, insert-Values, delete-Values, prune-Values,
  lookup-Values,
}
use synthient_mcp.HttpServer.Rate.{
  Window, Limiter, is_live, is_full, sweep, fresh_window, count_request, admit, handle,
  max_tracked_rate_principals, minute,
}

-- A window at the instant `now`: at least one request counted, never more than the limit, and it
-- ends within a minute.
abbrev pub IsWindow : ℕ → ℕ → Window → Type 0
IsWindow limit now w = (1 ≤ w.count) × (w.count ≤ limit) × (w.reset_at ≤ now + minute)

pub record IsValidMap (limit now : ℕ) (m : GoMap Window) : Type 0 where
  pub unique : HasUniqueKeys m
  pub bounded : length m ≤ max_tracked_rate_principals
  pub sound : Values (IsWindow limit now) m

pub record IsValid (now : ℕ) (l : Limiter) : Type 0 where
  pub positive : 1 ≤ l.limit
  pub map : IsValidMap l.limit now l.windows

Values-mono :
    (limit : ℕ) {earlier now : ℕ} (m : GoMap Window)
    → earlier ≤ now
    → Values (IsWindow limit earlier) m
    → Values (IsWindow limit now) m
Values-mono limit [] h a = tt
Values-mono limit ((k, w) ∷ m) h (here, later) = (omega arith, Values-mono limit m h later)

IsValidMap-mono :
    {limit earlier now : ℕ} {m : GoMap Window}
    → earlier ≤ now
    → IsValidMap limit earlier m
    → IsValidMap limit now m
IsValidMap-mono {limit} {m} h v = record {
  unique = v.unique;
  bounded = v.bounded;
  sound = Values-mono limit m h v.sound;
}

pub IsValid-mono :
    {earlier now : ℕ} {l : Limiter} → earlier ≤ now → IsValid earlier l → IsValid now l
IsValid-mono h v = record { positive = v.positive; map = IsValidMap-mono h v.map }

delete-IsValidMap :
    {limit now : ℕ} {m : GoMap Window} (p : Text)
    → IsValidMap limit now m
    → IsValidMap limit now (delete p m)
delete-IsValidMap {limit} {now} {m} p v = record {
  unique = delete-HasUniqueKeys p m v.unique;
  bounded = omega (arith, v.bounded, length-delete-le p m);
  sound = delete-Values (IsWindow limit now) p m v.sound;
}

sweep-IsValidMap :
    {limit now : ℕ} {m : GoMap Window} → IsValidMap limit now m → IsValidMap limit now (sweep now m)
unfolding sweep
sweep-IsValidMap {limit} {now} {m} v = elim (Bool-cases (is_full m)) [
  | inl full ↦ rw full (record {
    unique = prune-HasUniqueKeys (is_live now) m v.unique;
    bounded = omega (arith, v.bounded, length-prune-le (is_live now) m);
    sound = prune-Values (IsWindow limit now) (is_live now) m v.sound;
  })
  | inr free ↦ rw free v
]

insert-IsValidMap :
    {limit now : ℕ} {m : GoMap Window} (p : Text) (w : Window)
    → IsValidMap limit now m
    → IsWindow limit now w
    → (lookup p m ≢ none) ⊎ (length m < max_tracked_rate_principals)
    → IsValidMap limit now (insert p w m)
insert-IsValidMap {limit} {now} {m} p w v h room = record {
  unique = insert-HasUniqueKeys p w m v.unique;
  bounded = elim room [
    | inl old ↦ omega (arith, v.bounded, length-insert_old p w m old)
    | inr free ↦ omega (arith, length-insert-le p w m)
  ];
  sound = insert-Values (IsWindow limit now) p w m h v.sound;
}

count_request-IsValid :
    (l : Limiter) (now : ℕ) (p : Text) (m : GoMap Window) (w : Window)
    → 1 ≤ l.limit
    → IsValidMap l.limit now m
    → w.reset_at ≤ now + minute
    → (lookup p m ≢ none) ⊎ (length m < max_tracked_rate_principals)
    → IsValid now (count_request l now p m w).0
unfolding count_request
count_request-IsValid l now p m w pos v ends room = elim (Bool-cases (leb l.limit w.count)) [
  | inl over ↦ rw over (record { positive = pos; map = v })
  | inr under ↦ rw under (record {
    positive = pos;
    map =
        insert-IsValidMap p (record w { count = suc w.count }) v (omega arith, ground arith, ends)
          room;
  })
]

admit-none-IsValid :
    (l : Limiter) (now : ℕ) (p : Text) (m : GoMap Window)
    → 1 ≤ l.limit
    → IsValidMap l.limit now m
    → IsValid now (admit l now p (record { window = none; map = m })).0
admit-none-IsValid l now p m pos v = elim (Bool-cases (is_full (sweep now m))) [
  | inl full ↦ rw full (record { positive = pos; map = sweep-IsValidMap v })
  | inr free ↦ rw free (
      count_request-IsValid l now p (sweep now m) (fresh_window now) pos (sweep-IsValidMap v)
        (omega arith) (inr (ground arith)))
]

-- From a valid state, every request, at an instant no earlier than the one before, leaves a valid
-- state: the map within its size, its keys unique, and every window within its limit and its minute.
pub handle-IsValid :
    (l : Limiter) (last now : ℕ) (p : Text)
    → last ≤ now
    → IsValid last l
    → IsValid now (handle l now p).0
unfolding handle
handle-IsValid l last now [] h v = record { positive = v.positive; map = IsValidMap-mono h v.map }
handle-IsValid l last now (c ∷ p) h v = elim (Option-cases (lookup (c ∷ p) l.windows)) [
  | inl missing ↦ rw missing (admit-none-IsValid l now (c ∷ p) l.windows v.positive valid)
  | inr (w, found) ↦ elim (Bool-cases (is_live now w)) [
    | inl live ↦
        rw (found, live)
          (count_request-IsValid l now (c ∷ p) l.windows w v.positive valid
            (lookup-Values (IsWindow l.limit now) (c ∷ p) l.windows valid.sound found).2
            (inl (λ e. ground arith)))
    | inr over ↦
        rw (found, over)
          (admit-none-IsValid l now (c ∷ p) (delete (c ∷ p) l.windows) v.positive
            (delete-IsValidMap (c ∷ p) valid))
  ]
]
  where
    valid : IsValidMap l.limit now l.windows
    valid = IsValidMap-mono h v.map
