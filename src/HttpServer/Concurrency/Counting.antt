-- ===== src/HttpServer/Concurrency/Counting.antt =====
-- What the inner limiter's two sections do to its counts.
use synthient_mcp.Prelude.{
  ℕ, suc, ◌-◌, ◌≤◌, ◌<◌, List, [], ◌∷◌, ◌≡◌, refl, ◌≢◌, ◌==◌, length, arith, inl, inr, Bool-cases,
  cons-ne-nil,
}
use synthient_mcp.Text.{Text}
use synthient_mcp.Text.Equality.{text_eq-cases, text_eq_refl}
use synthient_mcp.GoMap.{GoMap, insert, delete, HasUniqueKeys}
use synthient_mcp.GoMap.Laws.{
  lookup-insert_self, lookup-insert_ne, lookup-delete_self, lookup-delete_ne, Values, insert-Values,
  delete-Values, insert-HasUniqueKeys, delete-HasUniqueKeys,
}
use synthient_mcp.HttpServer.Concurrency.{
  inflight_of, Verdict, admitted, begin, finish, count, remove,
}

pub inflight_of-insert_self : (p : Text) (n : ℕ) (m : GoMap ℕ) → inflight_of p (insert p n m) ≡ n
unfolding inflight_of
inflight_of-insert_self p n m = rw (lookup-insert_self p n m)

pub inflight_of-insert_ne :
    (p q : Text) (n : ℕ) (m : GoMap ℕ) → q ≢ p → inflight_of q (insert p n m) ≡ inflight_of q m
unfolding inflight_of
inflight_of-insert_ne p q n m ne = rw (lookup-insert_ne p q n m ne)

inflight_of-delete_self : (p : Text) (m : GoMap ℕ) → inflight_of p (delete p m) ≡ 0
unfolding inflight_of
inflight_of-delete_self p m = rw (lookup-delete_self p m)

inflight_of-delete_ne :
    (p q : Text) (m : GoMap ℕ) → q ≢ p → inflight_of q (delete p m) ≡ inflight_of q m
unfolding inflight_of
inflight_of-delete_ne p q m ne = rw (lookup-delete_ne p q m ne)

-- The map holds no entry that counts nothing, so an idle server holds no entry at all.
abbrev pub IsPositive : ℕ → Type 0
IsPositive n = 0 < n

pub record IsTidy (m : GoMap ℕ) : Type 0 where
  pub unique : HasUniqueKeys m
  pub positive : Values IsPositive m

-- `begin` in full: a request is admitted exactly if its principal has a name and is under the
-- limit, and then that count alone rises by one.
pub begin_admitted :
    (limit : ℕ) (m m' : GoMap ℕ) (p : Text)
    → begin limit m p ≡ (m', admitted)
    → (p ≢ []) × (inflight_of p m < limit) × (m' ≡ insert p (suc (inflight_of p m)) m)
unfolding begin
begin_admitted limit m m' [] e = absurd (ground arith)
begin_admitted limit m m' (c ∷ p) e = (cons-ne-nil c p, ground arith, ground arith)

pub begin_rejected :
    (limit : ℕ) (m m' : GoMap ℕ) (p : Text) (v : Verdict)
    → begin limit m p ≡ (m', v)
    → v ≢ admitted
    → m' ≡ m
unfolding begin
begin_rejected limit m m' [] v e ne = ground arith
begin_rejected limit m m' (c ∷ p) v e ne = ground arith

pub finish_self : (p : Text) (m : GoMap ℕ) → inflight_of p (finish m p) ≡ inflight_of p m - 1
unfolding finish
finish_self p m = ground (
  arith,
  inflight_of-delete_self p (insert p (inflight_of p m - 1) m),
  inflight_of-insert_self p (inflight_of p m - 1) m,
)

pub finish_ne : (p q : Text) (m : GoMap ℕ) → q ≢ p → inflight_of q (finish m p) ≡ inflight_of q m
unfolding finish
finish_ne p q m ne = ground (
  arith,
  inflight_of-delete_ne p q (insert p (inflight_of p m - 1) m) ne,
  inflight_of-insert_ne p q (inflight_of p m - 1) m ne,
)

pub insert-IsTidy : (p : Text) (n : ℕ) (m : GoMap ℕ) → 0 < n → IsTidy m → IsTidy (insert p n m)
insert-IsTidy p n m pos t = record {
  unique = insert-HasUniqueKeys p n m t.unique;
  positive = insert-Values IsPositive p n m pos t.positive;
}

delete-insert : (p : Text) (n : ℕ) (m : GoMap ℕ) → delete p (insert p n m) ≡ delete p m
unfolding delete insert
delete-insert p n [] = ground (arith, text_eq_refl p)
delete-insert p n ((q, k) ∷ m) = ground (arith, text_eq_refl p, delete-insert p n m)

pub finish-IsTidy : (p : Text) (m : GoMap ℕ) → IsTidy m → IsTidy (finish m p)
unfolding finish
finish-IsTidy p m t = elim (Bool-cases (inflight_of p m - 1 == 0)) [
  | inl last ↦
      rw (last, delete-insert p (inflight_of p m - 1) m)
        (record {
          unique = delete-HasUniqueKeys p m t.unique;
          positive = delete-Values IsPositive p m t.positive;
        })
  | inr more ↦ rw more (insert-IsTidy p (inflight_of p m - 1) m (ground arith) t)
]

pub count_cons_self : (p : Text) (ps : List Text) → count p (p ∷ ps) ≡ suc (count p ps)
unfolding count
count_cons_self p ps = ground (arith, text_eq-cases p p)

pub count_cons_ne : (p q : Text) (ps : List Text) → q ≢ p → count q (p ∷ ps) ≡ count q ps
unfolding count
count_cons_ne p q ps ne = ground (arith, text_eq-cases p q)

pub count-remove_self : (p : Text) (ps : List Text) → count p (remove p ps) ≡ count p ps - 1
unfolding count remove
count-remove_self p [] = omega arith
count-remove_self p (q ∷ ps) = ground (arith, count-remove_self p ps)

pub count-remove_ne : (p q : Text) (ps : List Text) → q ≢ p → count q (remove p ps) ≡ count q ps
unfolding count remove
count-remove_ne p q [] ne = refl
count-remove_ne p q (r ∷ ps) ne =
    ground (arith, count-remove_ne p q ps ne, text_eq-cases r p, text_eq-cases r q)

pub length-remove :
    (p : Text) (ps : List Text) → 0 < count p ps → suc (length (remove p ps)) ≡ length ps
unfolding count remove
length-remove p [] h = absurd (omega arith)
length-remove p (q ∷ ps) h = ground (arith, length-remove p ps)

pub count-le-length : (p : Text) (ps : List Text) → count p ps ≤ length ps
unfolding count
count-le-length p [] = omega arith
count-le-length p (q ∷ ps) = ground (arith, count-le-length p ps)
