-- ===== src/HttpServer/Protect/Principals.antt =====
-- The principals by which the limiters count, as requestPrincipal names them.
use synthient_mcp.Prelude.{
  ok, [], ◌∷◌, ◌++◌, ◌≡◌, ◌≢◌, refl, sym, ◌∙◌, subst, ◌⊎◌, inl, inr, false, Option, none, some,
  arith,
}
use synthient_mcp.Text.{Text, codes}
use synthient_mcp.HttpServer.Protect.{
  Config, Request, protect_mcp, first_value, key_principal, principal_of, request_principal,
}
use synthient_mcp.HttpServer.Protect.Admission.{protect_mcp_iff}

-- Whose request it is: that of a user of a token, or that of the holder of a key.
pub data Caller : Type 0 where
  user : Text → Caller
  key : Text → Caller

-- The caller of a request: a token's user comes first, then the key.
pub data IsFrom (r : Request) : Caller → Type 0 where
  by_user : (u : Text) → u ≢ [] → r.user_id ≡ some u → IsFrom r (user u)
  by_key :
      (k : Text)
      → k ≢ []
      → (r.user_id ≡ none) ⊎ (r.user_id ≡ some [])
      → first_value r.api_key ≡ k
      → IsFrom r (key k)

abbrev pub named : (Text → Text) → Caller → Text
named digest (user u) = codes "oauth:" ++ u
named digest (key k) = codes "api-key:" ++ digest k

key_caller :
    (digest : Text → Text) (r : Request) (k : Text)
    → (r.user_id ≡ none) ⊎ (r.user_id ≡ some [])
    → first_value r.api_key ≡ k
    → key_principal digest k ≢ []
    → (c : Caller) × IsFrom r c × (key_principal digest k ≡ named digest c)
key_caller digest r [] anonymous same filled = absurd (filled refl)
key_caller digest r (b ∷ k) anonymous same filled =
    (key (b ∷ k), by_key (b ∷ k) (cc) anonymous same, refl)

caller :
    (digest : Text → Text) (r : Request) (u : Option Text)
    → r.user_id ≡ u
    → principal_of digest u (first_value r.api_key) ≢ []
    → (c : Caller) × IsFrom r c × (principal_of digest u (first_value r.api_key) ≡ named digest c)
caller digest r none same filled = key_caller digest r _ (inl same) refl filled
caller digest r (some []) same filled = key_caller digest r _ (inr same) refl filled
caller digest r (some (b ∷ u)) same filled = (user (b ∷ u), by_user (b ∷ u) (cc) same, refl)

-- Two callers share a count only as the same user, or with keys of the same digest.
pub data AreAlike (digest : Text → Text) : Caller → Caller → Type 0 where
  one_user : (u : Text) → AreAlike digest (user u) (user u)
  one_digest : (k l : Text) → digest k ≡ digest l → AreAlike digest (key k) (key l)

alike :
    (digest : Text → Text) (c d : Caller) → named digest c ≡ named digest d → AreAlike digest c d
alike digest (user u) (user v) e =
    subst (λ w. AreAlike digest (user u) (user w)) (ground arith) (one_user u)
alike digest (key k) (key l) e = one_digest k l (ground arith)
alike digest (user u) (key l) e = absurd (ground arith)
alike digest (key k) (user v) e = absurd (ground arith)

-- Two requests with the same principal, that is not the empty one, are of one user of the tokens,
-- or both are without a user and have keys with the same digest: no user's name can stand for a
-- key, nor a key for a user.
pub request_principal-AreAlike :
    (digest : Text → Text) (r s : Request)
    → request_principal digest r ≡ request_principal digest s
    → request_principal digest r ≢ []
    → (c : Caller) × (d : Caller) × IsFrom r c × IsFrom s d × AreAlike digest c d
unfolding request_principal
request_principal-AreAlike digest r s same filled =
    let (c, from_c, name_c) = caller digest r r.user_id refl filled in
    let (d, from_d, name_d) = caller digest s s.user_id refl (λ e. filled (same ∙ e)) in
    (c, d, from_c, from_d, alike digest c d (sym name_c ∙ same ∙ name_d))

principal_of_key :
    (digest : Text → Text) (u : Option Text) (k : Text) → k ≢ [] → principal_of digest u k ≢ []
principal_of_key digest none [] filled = absurd (filled refl)
principal_of_key digest none (b ∷ k) filled = cc
principal_of_key digest (some []) [] filled = absurd (filled refl)
principal_of_key digest (some []) (b ∷ k) filled = cc
principal_of_key digest (some (c ∷ u)) k filled = cc

-- In the mode of API keys, a request that protectMCP lets through has a principal, so the limiters
-- behind it never answer 401 to it.
pub protect_mcp-named :
    (unicode_lower digest : Text → Text) (cfg : Config) (r next : Request)
    → cfg.oauth ≡ false
    → protect_mcp unicode_lower cfg r ≡ ok next
    → request_principal digest next ≢ []
unfolding request_principal
protect_mcp-named u digest cfg r next direct e =
    let a = (protect_mcp_iff u cfg r next).0 e in
    let k = a.keyed direct in
    let kept : next.api_key ≡ r.api_key = rw (a.same, direct) refl in
    let first : first_value next.api_key ≡ k.key = rw (kept, k.only) refl in
    rw first
      (principal_of_key digest next.user_id k.key (λ empty. k.filled (sym k.trimmed ∙ empty)))
