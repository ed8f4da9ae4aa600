-- ===== src/HttpServer/Rate/Steps.antt =====
-- What one request does to the window of a principal: its own, and that of another.
use synthient_mcp.Prelude.{
  ℕ, suc, ◌+◌, ◌≤◌, ◌<◌, ◌⊎◌, [], ◌∷◌, ◌≡◌, refl, ◌≢◌, true, false, Option, none, some, arith, inl,
  inr, leb, Bool-cases, Option-cases,
}
use synthient_mcp.Text.{Text}
use synthient_mcp.GoMap.{GoMap, lookup, delete, HasUniqueKeys}
use synthient_mcp.GoMap.Laws.{
  lookup-insert_self, lookup-insert_ne, lookup-delete_self, lookup-delete_ne, lookup-prune, keep_if,
  delete-HasUniqueKeys,
}
use synthient_mcp.HttpServer.Rate.{
  Window, Limiter, Found, drop_expired, Outcome, is_live, is_full, sweep, fresh_window,
  count_request, admit, handle, is_passed, minute,
}

-- What became of a principal's window while another one was served: it is as it was, or the sweep
-- took it because it had ended.
abbrev pub Kept : ℕ → Option Window → Option Window → Type 0
Kept now before after = (after ≡ before) ⊎ (after ≡ keep_if (is_live now) before)

sweep-Kept :
    (now : ℕ) (p : Text) (m : GoMap Window)
    → HasUniqueKeys m
    → Kept now (lookup p m) (lookup p (sweep now m))
unfolding sweep
sweep-Kept now p m u = elim (Bool-cases (is_full m)) [
  | inl full ↦ rw full (inr (lookup-prune (is_live now) p m u))
  | inr free ↦ rw free (inl refl)
]

count_request_other :
    (l : Limiter) (now : ℕ) (p q : Text) (m : GoMap Window) (w : Window)
    → p ≢ q
    → lookup p (count_request l now q m w).0.windows ≡ lookup p m
unfolding count_request
count_request_other l now p q m w ne =
    ground (arith, lookup-insert_ne q p (record w { count = suc w.count }) m ne)

admit-none_other :
    (l : Limiter) (now : ℕ) (p q : Text) (m : GoMap Window)
    → p ≢ q
    → lookup p (admit l now q (record { window = none; map = m })).0.windows
      ≡ lookup p (sweep now m)
admit-none_other l now p q m ne = elim (Bool-cases (is_full (sweep now m))) [
  | inl full ↦ rw full
  | inr free ↦ rw free (count_request_other l now p q (sweep now m) (fresh_window now) ne)
]

pub handle-Kept :
    (l : Limiter) (now : ℕ) (p q : Text)
    → p ≢ q
    → HasUniqueKeys l.windows
    → Kept now (lookup p l.windows) (lookup p (handle l now q).0.windows)
unfolding handle
handle-Kept l now p [] ne u = inl refl
handle-Kept l now p (c ∷ q) ne u = elim (Option-cases (lookup (c ∷ q) l.windows)) [
  | inl missing ↦
      rw missing (rw (admit-none_other l now p (c ∷ q) l.windows ne) (sweep-Kept now p l.windows u))
  | inr (w, found) ↦ elim (Bool-cases (is_live now w)) [
    | inl live ↦ rw (found, live) (inl (count_request_other l now p (c ∷ q) l.windows w ne))
    | inr over ↦
        rw (found, over)
          (rw (admit-none_other l now p (c ∷ q) (delete (c ∷ q) l.windows) ne) (
            rw (lookup-delete_ne (c ∷ q) p l.windows ne) at (
              sweep-Kept now p (delete (c ∷ q) l.windows)
                (delete-HasUniqueKeys (c ∷ q) l.windows u))))
  ]
]

-- No window of the principal is live at `now` or later.
abbrev pub IsDead : ℕ → Option Window → Type 0
IsDead now o = (w : Window) → o ≡ some w → w.reset_at ≤ now

pub keep-IsDead : (now : ℕ) (o o' : Option Window) → Kept now o o' → IsDead now o → IsDead now o'
keep-IsDead now none o' k dead w e = ground arith
keep-IsDead now (some v) o' k dead w e = ground (arith, dead v refl)

pub keep_live :
    (now : ℕ) (w : Window) (o' : Option Window)
    → Kept now (some w) o'
    → now < w.reset_at
    → o' ≡ some w
keep_live now w o' k live = ground arith

-- A request of the principal itself, against its live window.
abbrev pub CountsOn : Limiter → Limiter × Outcome → Text → Window → Type 0
CountsOn l (l', out) p w =
    ((is_passed out ≡ true)
      × (w.count < l.limit)
      × (lookup p l'.windows ≡ some (record w { count = suc w.count })))
    ⊎ ((is_passed out ≡ false) × (lookup p l'.windows ≡ some w))

count_request-CountsOn :
    (l : Limiter) (now : ℕ) (p : Text) (m : GoMap Window) (w : Window)
    → lookup p m ≡ some w
    → CountsOn l (count_request l now p m w) p w
unfolding count_request
count_request-CountsOn l now p m w found = elim (Bool-cases (leb l.limit w.count)) [
  | inl over ↦ rw over (inr (refl, found))
  | inr under ↦
      rw under (inl (refl, ground arith, lookup-insert_self p (record w { count = suc w.count }) m))
]

pub handle_live :
    (l : Limiter) (now : ℕ) (p : Text) (w : Window)
    → p ≢ []
    → lookup p l.windows ≡ some w
    → now < w.reset_at
    → CountsOn l (handle l now p) p w
unfolding handle
handle_live l now [] w named found live = absurd (named refl)
handle_live l now (c ∷ p) w named found live =
    let alive : is_live now w ≡ true = ground arith in
    rw (found, alive) (count_request-CountsOn l now (c ∷ p) l.windows w found)

-- A request of the principal itself when it has no live window.
abbrev pub Starts : ℕ → Limiter × Outcome → Text → Type 0
Starts now (l', out) p =
    ((is_passed out ≡ true)
      × (lookup p l'.windows ≡ some (record { count = 1; reset_at = now + minute })))
    ⊎ ((is_passed out ≡ false) × (lookup p l'.windows ≡ none))

count_request-Starts :
    (l : Limiter) (now : ℕ) (p : Text) (m : GoMap Window)
    → 1 ≤ l.limit
    → Starts now (count_request l now p m (fresh_window now)) p
unfolding count_request
count_request-Starts l now p m pos =
    let under : leb l.limit 0 ≡ false = ground arith in
    rw under (inl (refl, lookup-insert_self p _ m))

admit-none-Starts :
    (l : Limiter) (now : ℕ) (p : Text) (m : GoMap Window)
    → 1 ≤ l.limit
    → HasUniqueKeys m
    → lookup p m ≡ none
    → Starts now (admit l now p (record { window = none; map = m })) p
admit-none-Starts l now p m pos u missing = elim (Bool-cases (is_full (sweep now m))) [
  | inl full ↦ rw full (inr (refl, ground (arith, sweep-Kept now p m u)))
  | inr free ↦ rw free (count_request-Starts l now p (sweep now m) pos)
]

pub handle_dead :
    (l : Limiter) (now : ℕ) (p : Text)
    → p ≢ []
    → 1 ≤ l.limit
    → HasUniqueKeys l.windows
    → IsDead now (lookup p l.windows)
    → Starts now (handle l now p) p
unfolding handle
handle_dead l now [] named pos u dead = absurd (named refl)
handle_dead l now (c ∷ p) named pos u dead = elim (Option-cases (lookup (c ∷ p) l.windows)) [
  | inl missing ↦ rw missing (admit-none-Starts l now (c ∷ p) l.windows pos u missing)
  | inr (w, found) ↦
      let over : is_live now w ≡ false = ground (arith, dead w found) in
      rw (found, over)
        (admit-none-Starts l now (c ∷ p) (delete (c ∷ p) l.windows) pos
          (delete-HasUniqueKeys (c ∷ p) l.windows u) (lookup-delete_self (c ∷ p) l.windows))
]

pub handle-limit : (l : Limiter) (now : ℕ) (p : Text) → (handle l now p).0.limit ≡ l.limit
unfolding handle
handle-limit l now [] = refl
handle-limit l now (c ∷ p) =
    admit-limit l now (c ∷ p) (drop_expired now (c ∷ p) l.windows (lookup (c ∷ p) l.windows))
  where
    admit-limit :
        (l : Limiter) (now : ℕ) (p : Text) (f : Found) → (admit l now p f).0.limit ≡ l.limit
    admit-limit l now p f = ground arith
