-- ===== src/HttpServer/Tokens/Granted.antt =====
-- What a token that is accepted grants.
use synthient_mcp.Prelude.{
  ok, bind_steps, guard_passed, ok_injective, subst, ◌≤◌, List, [], ◌++◌, ◌≡◌, refl, sym, ◌≢◌, true,
  not, ◌&&◌, ◌||◌, Option, none, some, ltb, length, map, arith,
}
use synthient_mcp.Text.{Text, codes, text_eq, member, trim_space}
use synthient_mcp.Text.Equality.{eq→text_eq}
use synthient_mcp.Synthient.Json.{Fields, find}
use synthient_mcp.HttpServer.Scopes.Sets.{distinct, unique_strings-distinct}
use synthient_mcp.HttpServer.Tokens.{
  Token, TokenInfo, string_claim, scope_claim, verified, decoded_claims, checked_subject,
  token_info,
}

-- The scopes that the claims `scope` and `scp` name, with blanks at their ends.
abbrev pub claimed_scopes : Fields → List Text
claimed_scopes claims =
    scope_claim (find (codes "scope") claims) ++ scope_claim (find (codes "scp") claims)

pub record IsGranted (token : Token) (info : TokenInfo) : Type 0 where
  pub claims : Fields
  pub decoded : token.claims ≡ some claims
  pub subject : info.user_id ≡ string_claim (find (codes "sub") claims)
  pub named : info.user_id ≢ []
  pub short : length info.user_id ≤ 512
  pub once : distinct info.scopes ≡ true
  pub scoped :
      (w : Text)
      → member w info.scopes
        ≡ (not (text_eq w []) && member w (map trim_space (claimed_scopes claims)))
  pub expires : (info.expiration ≡ token.expiry) × (info.issuer ≡ token.issuer)

module _ (verify : Text → Option Token) where
  verified-some : (o : Option Token) (token : Token) → verified verify o ≡ ok token → o ≡ some token
  verified-some none token e = absurd (cc)
  verified-some (some t) token e = ground arith

  decoded_some :
      (o : Option Fields) (claims : Fields) → decoded_claims verify o ≡ ok claims → o ≡ some claims
  decoded_some none claims e = absurd (cc)
  decoded_some (some c) claims e = ground arith

  -- A token that the verifier accepts was verified by go-oidc, its claims decode, and what it grants
  -- are a user of 1 to 512 bytes, the subject without blanks at its ends, and each scope of the claims
  -- `scope` and `scp` once, without blanks at its ends, and no other; it expires when the token does.
  pub token_info-IsGranted :
      (raw : Text) (info : TokenInfo)
      → token_info verify raw ≡ ok info
      → (token : Token) × (verify raw ≡ some token) × IsGranted token info
  unfolding token_info
  token_info-IsGranted raw info e =
      let (token, found, e1) = bind_steps (verified verify (verify raw)) _ e in
      let (claims, decoded, e2) = bind_steps (decoded_claims verify token.claims) _ e1 in
      let said = string_claim (find (codes "sub") claims) in
      let (subject, checked, last) = bind_steps (checked_subject verify said) _ e2 in
      let (fits, same) = guard_passed (text_eq said [] || ltb 512 (length said)) _ _ checked in
      let is_said : said ≡ subject = ground arith in
      let unique = unique_strings-distinct (claimed_scopes claims) in
      (
        token,
        verified-some (verify raw) token found,
        subst (IsGranted token) (ok_injective (ok _) refl last) (record {
          claims = claims;
          decoded = decoded_some token.claims claims decoded;
          subject = sym is_said;
          named = rw (← is_said) (λ empty. ground (arith, eq→text_eq said [] empty));
          short = rw (← is_said) (ground arith);
          once = unique.0;
          scoped = unique.1;
          expires = (refl, refl);
        }),
      )
