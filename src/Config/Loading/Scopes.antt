-- ===== src/Config/Loading/Scopes.antt =====
-- The scopes that scopeList of go/internal/config/config.go accepts.
use synthient_mcp.Prelude.{
  ok, bind_steps, guard_passed, subst, ℕ, ◌≤◌, List, [], ◌∷◌, ◌++◌, ◌≡◌, ◌≢◌, false, ◌||◌, ltb,
  length, All, All-append, arith,
}
use synthient_mcp.Text.{Text, codes, text_eq, contains_any, split, trim_space}
use synthient_mcp.Text.Equality.{eq→text_eq}
use synthient_mcp.Config.{scope_list, few_scopes, collect_scopes}

-- A text that is not empty and has at most so many bytes.
abbrev pub IsBounded : ℕ → Text → Type 0
IsBounded limit value = (value ≢ []) × (length value ≤ limit)

-- A scope: a text of 1 to 128 bytes without white space or quotes.
abbrev pub IsScope : Text → Type 0
IsScope scope = IsBounded 128 scope × (contains_any scope (codes " \t\r\n\"") ≡ false)

passing-IsScope :
    (scope : Text)
    → (text_eq scope [] || ltb 128 (length scope) || contains_any scope (codes " \t\r\n\"")) ≡ false
    → IsScope scope
passing-IsScope scope h = ((λ e. ground (arith, eq→text_eq scope [] e), ground arith), ground arith)

collect_scopes-IsScope :
    (scopes items found : List Text)
    → All IsScope scopes
    → collect_scopes scopes items ≡ ok found
    → All IsScope found
unfolding collect_scopes
collect_scopes-IsScope scopes [] found h e =
    let same : scopes ≡ found = ground arith in subst (All IsScope) same h
collect_scopes-IsScope scopes (item ∷ items) found h e =
    let scope = trim_space item in
    let (good, later) =
      guard_passed
        (text_eq scope [] || ltb 128 (length scope) || contains_any scope (codes " \t\r\n\"")) _ _
        e in
    collect_scopes-IsScope (scopes ++ scope ∷ []) items found
      (All-append IsScope scopes (scope ∷ []) h (passing-IsScope scope good, tt)) later

few_scopes_bounds :
    (scopes found : List Text)
    → few_scopes scopes ≡ ok found
    → (scopes ≡ found) × (1 ≤ length scopes) × (length scopes ≤ 20)
few_scopes_bounds scopes found e =
    let (few, last) = guard_passed (ltb (length scopes) 1 || ltb 20 (length scopes)) _ _ e in
    (ground arith, ground arith, ground arith)

pub scope_list-IsScope :
    (value : Text) (scopes : List Text)
    → scope_list value ≡ ok scopes
    → ((1 ≤ length scopes) × (length scopes ≤ 20)) × All IsScope scopes
unfolding scope_list
scope_list-IsScope value scopes e =
    let (found, collected, few) = bind_steps (collect_scopes [] (split b',' value)) _ e in
    let (same, least, most) = few_scopes_bounds found scopes few in
    subst (λ ss. ((1 ≤ length ss) × (length ss ≤ 20)) × All IsScope ss) same
      ((least, most), collect_scopes-IsScope [] (split b',' value) found tt collected)
