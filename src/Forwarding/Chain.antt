-- ===== src/Forwarding/Chain.antt =====
-- How the chain of forwarded addresses is built and read from its right end.
use synthient_mcp.Prelude.{
  ok, ◌>>=◌, bind_steps, bind_cong, bind_assoc, ℕ, suc, ◌+◌, ◌-◌, ◌≤◌, List, [], ◌∷◌, ◌++◌, ◌≡◌,
  refl, sym, ◌∙◌, ap, false, ltb, length, length-append, drop, arith, append_assoc, append-nil,
}
use synthient_mcp.Text.{Text, split}
use synthient_mcp.Net.{Prefix}
use synthient_mcp.Forwarding.{
  canonical_ip, collect_values, collect_lines, forwarded_error, bounded, max_forwarded_addresses,
  choose,
}

bounded_ok :
    (chain chain' : List Text)
    → bounded chain ≡ ok chain'
    → (chain' ≡ chain) × (length chain ≤ max_forwarded_addresses)
bounded_ok chain chain' e = ground arith

bounded_of_le :
    (chain : List Text) → length chain ≤ max_forwarded_addresses → bounded chain ≡ ok chain
bounded_of_le chain h = ground arith

-- What the inner loop adds stands behind what was there, and does not depend on it.
collect_values-append :
    (front chain values added : List Text)
    → collect_values (front ++ chain) values ≡ ok added
    → (rest : List Text) × (collect_values chain values ≡ ok rest) × (added ≡ front ++ rest)
unfolding collect_values
collect_values-append front chain [] added e = (chain, refl, ground arith)
collect_values-append front chain (v ∷ values) added e =
    let (ip, parsed, e1) = bind_steps (forwarded_error (canonical_ip v)) _ e in
    let (longer, fits, e2) = bind_steps (bounded ((front ++ chain) ++ ip ∷ [])) _ e1 in
    let (same, short) = bounded_ok _ longer fits in
    let regroup = append_assoc front chain (ip ∷ []) in
    let (rest, r, split_rest) =
      collect_values-append front (chain ++ ip ∷ []) values added (rw (same, regroup) at e2) in
    let fits' =
      bounded_of_le (chain ++ ip ∷ [])
        (omega (arith, short, ap length regroup, length-append front (chain ++ ip ∷ []))) in
    (rest, rw (parsed, fits') r, split_rest)

-- The values of the header, over all its lines.
unfoldable pub header_values : List Text → List Text
header_values [] = []
header_values (line ∷ lines) = split b',' line ++ header_values lines

collect_values-bind :
    (xs ys chain : List Text)
    → collect_values chain (xs ++ ys)
      ≡ (collect_values chain xs >>= λ longer. collect_values longer ys)
unfolding collect_values
collect_values-bind [] ys chain = refl
collect_values-bind (x ∷ xs) ys chain =
    bind_cong (forwarded_error (canonical_ip x)) (λ ip.
      bind_cong (bounded (chain ++ ip ∷ [])) (λ longer. collect_values-bind xs ys longer)
      ∙ sym (bind_assoc (bounded (chain ++ ip ∷ [])) _ _))
    ∙ sym (bind_assoc (forwarded_error (canonical_ip x)) _ _)

-- The two loops together are one loop over all values.
pub collect_lines-values :
    (lines chain : List Text)
    → collect_lines chain lines ≡ collect_values chain (header_values lines)
unfolding collect_lines header_values
collect_lines-values [] chain = unfold collect_values in refl
collect_lines-values (line ∷ lines) chain =
    bind_cong (collect_values chain (split b',' line)) (λ longer. collect_lines-values lines longer)
    ∙ sym (collect_values-bind (split b',' line) (header_values lines) chain)

-- Values in front of the header's put their addresses in front of the chain, and change nothing of
-- what stands behind.
pub collect_values_front :
    (forged values chain : List Text)
    → collect_values [] (forged ++ values) ≡ ok chain
    → (front : List Text) × (rest : List Text) × (collect_values [] values ≡ ok rest)
      × (chain ≡ front ++ rest)
collect_values_front forged values chain e =
    let (front, first, e1) =
      bind_steps (collect_values [] forged) _ (rw (collect_values-bind forged values []) at e) in
    let (rest, r, same) = collect_values-append front [] values chain (rw (append-nil front) e1) in
    (front, rest, r, same)

drop-append :
    (front chain : List Text) (n : ℕ) → drop (length front + n) (front ++ chain) ≡ drop n chain
drop-append [] chain n = let e : 0 + n ≡ n = omega arith in rw e
drop-append (x ∷ front) chain n =
    let e : suc (length front) + n ≡ suc (length front + n) = omega arith in
    rw e (drop-append front chain n)

-- The choice counts from the right, so a longer front changes nothing.
pub choose-append :
    (hops : ℕ) (prefixes : List Prefix) (front chain : List Text)
    → suc hops ≤ length chain
    → choose hops prefixes (front ++ chain) ≡ choose hops prefixes chain
unfolding choose
choose-append hops prefixes front chain enough =
    let total = length-append front chain in
    let place : length (front ++ chain) - suc hops ≡ length front + (length chain - suc hops) =
      omega (arith, total) in
    let enough' : ltb (length (front ++ chain)) (suc hops) ≡ false = ground (arith, total) in
    let same : ltb (length chain) (suc hops) ≡ false = ground arith in
    rw (enough', same, place) (rw (drop-append front chain (length chain - suc hops)))
