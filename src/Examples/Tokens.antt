-- ===== src/Examples/Tokens.antt =====
-- Runs and instances for HttpServer.Tokens and HttpServer.Routes.
use synthient_mcp.Prelude.{
  ok, ℕ, [], ◌∷◌, ◌++◌, map, drop, ◌≡◌, refl, ap, subst, inl, inr, Bool-cases, ◌==◌, arith, true,
  false, Option, none, some, if◌then◌else◌,
}
use synthient_mcp.Text.{Text, codes, text_eq, starts_with}
use synthient_mcp.Synthient.Json.{string, array, null, nil, cons, Fields, end, field}
use synthient_mcp.Text.Search.{Lacks}
use synthient_mcp.Net.Url.{Url}
use synthient_mcp.HttpServer.Scopes.Sets.{distinct}
use synthient_mcp.HttpServer.Tokens.{Token, TokenInfo, token_info, scope_claim}
use synthient_mcp.HttpServer.Tokens.Granted.{IsGranted, token_info-IsGranted}
use synthient_mcp.HttpServer.Routes.{metadata_root, routes, resource_metadata_path}
use synthient_mcp.HttpServer.Routes.Apart.{path_of, IsReadBack, routes-distinct}

abbrev claims : Fields
claims = field (codes "sub") (string (codes " user ")) (
    field (codes "scope") (string (codes "mcp:tools  mcp:read"))
      (field (codes "scp") (array (cons (string (codes "mcp:read")) nil)) end))

abbrev token : Token
token = record { claims = some claims; expiry = 1000; issuer = codes "https://auth" }

abbrev verify : Text → Option Token
verify raw = if text_eq raw (codes "jwt") then some token else none

abbrev info : TokenInfo
info = record {
  scopes = codes "mcp:tools" ∷ codes "mcp:read" ∷ [];
  expiration = 1000;
  user_id = codes "user";
  issuer = codes "https://auth";
}

runs : Unit {0}
unfolding token_info text_eq scope_claim starts_with
runs = tt

granted : token_info verify (codes "jwt") ≡ ok info
unfolding runs
granted = refl

mixed : scope_claim (some (array (cons (string (codes "a")) (cons null nil)))) ≡ codes "a" ∷ [] ∷ []
unfolding runs
mixed = refl

token_info-IsGranted_example : (t : Token) × (verify (codes "jwt") ≡ some t) × IsGranted t info
unfolding runs
token_info-IsGranted_example = token_info-IsGranted verify (codes "jwt") info granted

-- Absolute HTTPS URLs of a host and a path, printed and parsed.
abbrev https_at : Text × Text → Url
https_at (host, path) = record {
  scheme = codes "https";
  opaque = [];
  has_user = false;
  host = host;
  path = path;
  raw_path = [];
  raw_query = [];
  fragment = [];
}

abbrev push : ℕ → Text × Text → Text × Text
push c (host, path) = (c ∷ host, path)

-- The host up to the first slash, and the path.
cut : Text → Text × Text
cut [] = ([], [])
cut (c ∷ s) = let rest = cut s in if c == b'/' then ([], c ∷ s) else push c rest

cut-Lacks : (s : Text) → Lacks b'/' (cut s).0
unfolding cut
cut-Lacks [] = tt
cut-Lacks (c ∷ s) = elim (Bool-cases (c == b'/')) [
  | inl slash ↦ rw slash tt
  | inr other ↦ rw other (λ e. ground (arith, e), cut-Lacks s)
]

cut-append :
    (host path : Text)
    → Lacks b'/' host
    → starts_with path (codes "/") ≡ true
    → cut (host ++ path) ≡ (host, path)
unfolding cut starts_with
cut-append [] [] h k = absurd (cc)
cut-append [] (c ∷ path) h k = ground (arith, k)
cut-append (c ∷ host) path h k =
    let other : (c == b'/') ≡ false = ground (arith, h.0) in
    rw (other, cut-append host path h.1 k) refl

parse : Text → Option Url
parse value =
    if starts_with value (codes "https://") then some (https_at (cut (drop 8 value))) else none

abbrev print : Url → Text
print u = codes "https://" ++ (u.host ++ u.path)

parse_printed :
    (host path : Text)
    → Lacks b'/' host
    → starts_with path (codes "/") ≡ true
    → parse (codes "https://" ++ (host ++ path)) ≡ some (https_at (host, path))
unfolding parse starts_with
parse_printed host path h k = ap (λ p. some (https_at p)) (cut-append host path h k)

root_slash :
    (path : Text) → starts_with path metadata_root ≡ true → starts_with path (codes "/") ≡ true
unfolding starts_with
root_slash [] h = absurd (cc)
root_slash (c ∷ path) h = ground (arith, h)

host-Lacks : (value : Text) (u : Url) → parse value ≡ some u → Lacks b'/' u.host
unfolding parse
host-Lacks value u e = elim (Bool-cases (starts_with value (codes "https://"))) [
  | inl https ↦
      let same : https_at (cut (drop 8 value)) ≡ u = ground (arith, https) in
      subst (λ v. Lacks b'/' v.host) same (cut-Lacks (drop 8 value))
  | inr other ↦ absurd (ground (arith, other))
]

parse-IsReadBack : IsReadBack parse print
parse-IsReadBack = record {
  read = λ value u path e below. (
    https_at (u.host, path),
    parse_printed u.host path (host-Lacks value u e) (root_slash path below),
    refl,
  );
  nothing = λ u e. absurd (no_url u e);
}
  where
    no_url : (u : Url) → parse [] ≡ some u → ⊥
    no_url u e = unfold parse starts_with in ground arith

routing : Unit {0}
unfolding parse cut text_eq starts_with routes resource_metadata_path
routing = tt

metadata_at :
    resource_metadata_path parse print (codes "https://mcp.example/mcp/")
    ≡ codes "/.well-known/oauth-protected-resource/mcp"
unfolding routing
metadata_at = refl

routes-distinct_example :
    distinct (map path_of (routes parse print true true (codes "https://mcp.example/mcp"))) ≡ true
routes-distinct_example =
    routes-distinct parse print parse-IsReadBack true true (codes "https://mcp.example/mcp")
