-- ===== src/Config/Loading/Loaded.antt =====
-- What a configuration that loads satisfies beyond its numbers.
use mathlib.Core.List.{Memᴰ}
use synthient_mcp.Prelude.{
  Result, ok, err, bind_steps, guard_passed, ok_injective, subst, ℕ, ◌≤◌, List, [], ◌∷◌, ◌≡◌, refl,
  sym, ◌∙◌, ap, inl, inr, Bool, true, false, not, ◌&&◌, Option, some, Bool-cases, length, All,
  arith,
}
use synthient_mcp.Text.{Text, codes, text_eq, ends_with, trim_space, to_lower}
use synthient_mcp.Text.Equality.{eq→text_eq}
use synthient_mcp.Net.{Prefix}
use synthient_mcp.Net.Url.{Url}
use synthient_mcp.Config.{
  Error, bad_api_key, bad_audience, bad_log_format, scope_list, get, validate_grpc_endpoint,
  parse_log_level,
}
use synthient_mcp.Config.Settings.{settings_from, refuse_if}
use synthient_mcp.Config.Settings.Ranges.{IsInRange, settings_from-IsInRange}
use synthient_mcp.Config.Urls.{validate_base_url, with_slash, validate_secure_url, config_origin}
use synthient_mcp.Config.Urls.Secure.{
  IsSecure, validate_secure_url-IsSecure, validate_base_url-IsSecure, with_slash-ends_with,
  with_slash-IsSecure,
}
use synthient_mcp.Config.Loading.{
  OAuth, Auth, key_of_request, oauth, Config, parsed_url, base_url_of, is_bounded, is_log_format,
  check_urls, oauth_from, auth_from, load_from, with_oauth,
}
use synthient_mcp.Config.Loading.Scopes.{IsBounded, IsScope, scope_list-IsScope}

-- A text that the parser reads as a secure URL.
abbrev pub IsSecureText : (Text → Option Url) → Text → Type 0
IsSecureText parse value = (u : Url) × (parse value ≡ some u) × IsSecure u

-- The credentials and the addresses of the OAuth mode.
pub record IsOAuth (parse : Text → Option Url) (o : OAuth) : Type 0 where
  pub api_key : IsBounded 1024 o.api_key
  pub issuer : IsSecureText parse o.issuer_url
  pub jwks : IsSecureText parse o.jwks_url
  pub resource : IsSecureText parse o.resource_url
  pub audience : IsBounded 2048 o.audience
  pub scopes : (1 ≤ length o.required_scopes) × (length o.required_scopes ≤ 20)
  pub tokens : All IsScope o.required_scopes

abbrev pub IsAuth : (Text → Option Url) → Auth → Type 0
IsAuth parse key_of_request = Unit {0}
IsAuth parse (oauth o) = IsOAuth parse o

pub record IsLoaded (parse : Text → Option Url) (c : Config) : Type 0 where
  pub numbers : IsInRange c.settings
  pub secure : IsSecure c.base_url
  pub no_raw_path : c.base_url.raw_path ≡ []
  pub slash : ends_with c.base_url.path (codes "/") ≡ true
  pub auth : IsAuth parse c.auth

refused : (e : Error) (b : Bool) (u : Unit {0}) → refuse_if e b ≡ ok u → b ≡ false
refused e true u h = absurd (cc)
refused e false u h = refl

bounded-IsBounded : (limit : ℕ) (s : Text) → not (is_bounded limit s) ≡ false → IsBounded limit s
bounded-IsBounded limit s h = (λ e. ground (arith, eq→text_eq s [] e), ground arith)

base_url_of-IsSecure :
    (parsed : Option Url) (base : Url)
    → base_url_of parsed ≡ ok base
    → IsSecure base × (base.raw_path ≡ []) × (ends_with base.path (codes "/") ≡ true)
unfolding base_url_of
base_url_of-IsSecure parsed base e =
    let (u, read, e1) = bind_steps (parsed_url parsed) _ e in
    let (t, valid, last) = bind_steps (validate_base_url u) _ e1 in
    let (secure, no_raw) = validate_base_url-IsSecure u valid in
    subst (λ base. IsSecure base × (base.raw_path ≡ []) × (ends_with base.path (codes "/") ≡ true))
      (ok_injective (ok (with_slash u)) refl last)
      (with_slash-IsSecure u secure, same_raw u ∙ no_raw, with_slash-ends_with u)
  where
    same_raw : (u : Url) → (with_slash u).raw_path ≡ u.raw_path
    same_raw u = unfold with_slash in refl

module _ (parse_request_uri : Text → Option Url) where
  check_urls-IsSecureText :
      (urls : List (Text × Text)) (name value : Text)
      → check_urls parse_request_uri urls ≡ ok tt
      → Memᴰ (name, value) urls
      → IsSecureText parse_request_uri value
  unfolding check_urls
  check_urls-IsSecureText [] name value e listed = elim listed [ ]
  check_urls-IsSecureText ((n, v) ∷ urls) name value e (Memᴰ.head same) =
      let (t, valid, rest) = bind_steps (validate_secure_url parse_request_uri n v) _ e in
      let here : v ≡ value = sym (ap (λ p. p.1) same) in
      subst (IsSecureText parse_request_uri) here
        (validate_secure_url-IsSecure parse_request_uri n v valid)
  check_urls-IsSecureText ((n, v) ∷ urls) name value e (Memᴰ.tail later) =
      let (t, valid, rest) = bind_steps (validate_secure_url parse_request_uri n v) _ e in
      check_urls-IsSecureText urls name value rest later

  module _ (shuffle : List (Text × Text) → List (Text × Text))
      (keeps : (urls : List (Text × Text)) (url : Text × Text)
        → Memᴰ url urls
        → Memᴰ url (shuffle urls)) where
    oauth_from-IsOAuth :
        (lookup : Text → Option Text) (o : OAuth)
        → oauth_from parse_request_uri shuffle lookup ≡ ok o
        → IsOAuth parse_request_uri o
    unfolding oauth_from
    oauth_from-IsOAuth lookup o e =
        let api_key = trim_space (get lookup (codes "SYNTHIENT_API_KEY") []) in
        let issuer = trim_space (get lookup (codes "OAUTH_ISSUER_URL") []) in
        let jwks = trim_space (get lookup (codes "OAUTH_JWKS_URL") []) in
        let audience = trim_space (get lookup (codes "OAUTH_AUDIENCE") []) in
        let resource = trim_space (get lookup (codes "MCP_RESOURCE_URL") []) in
        let urls : List (Text × Text) =
          (codes "OAUTH_ISSUER_URL", issuer)
          ∷ (codes "OAUTH_JWKS_URL", jwks)
          ∷ (codes "MCP_RESOURCE_URL", resource)
          ∷ [] in
        let (t, keyed, e1) =
          bind_steps (refuse_if bad_api_key (not (is_bounded 1024 api_key))) _ e in
        let (t2, checked, e2) = bind_steps (check_urls parse_request_uri (shuffle urls)) _ e1 in
        let (t3, known, e3) =
          bind_steps (refuse_if bad_audience (not (is_bounded 2048 audience))) _ e2 in
        let (scopes, listed, last) =
          bind_steps (scope_list (get lookup (codes "OAUTH_REQUIRED_SCOPES") (codes "mcp:tools"))) _
            e3 in
        let granted =
          scope_list-IsScope (get lookup (codes "OAUTH_REQUIRED_SCOPES") (codes "mcp:tools")) scopes
            listed in
        subst (IsOAuth parse_request_uri) (ok_injective (ok _) refl last) (record {
          api_key = bounded-IsBounded 1024 api_key (refused bad_api_key _ t keyed);
          issuer =
              check_urls-IsSecureText (shuffle urls) (codes "OAUTH_ISSUER_URL") issuer checked
                (keeps urls _ (Memᴰ.head refl));
          jwks =
              check_urls-IsSecureText (shuffle urls) (codes "OAUTH_JWKS_URL") jwks checked
                (keeps urls _ (Memᴰ.tail (Memᴰ.head refl)));
          resource =
              check_urls-IsSecureText (shuffle urls) (codes "MCP_RESOURCE_URL") resource checked
                (keeps urls _ (Memᴰ.tail (Memᴰ.tail (Memᴰ.head refl))));
          audience = bounded-IsBounded 2048 audience (refused bad_audience _ t3 known);
          scopes = granted.0;
          tokens = granted.1;
        })

    with_oauth_ok :
        (r : Result Error OAuth) (auth : Auth)
        → with_oauth parse_request_uri shuffle r ≡ ok auth
        → (o : OAuth) × (r ≡ ok o) × (oauth o ≡ auth)
    with_oauth_ok (ok o) auth e = (o, refl, ground arith)
    with_oauth_ok (err f) auth e = absurd (cc)

    auth_from-IsAuth :
        (lookup : Text → Option Text) (mode : Text) (auth : Auth)
        → auth_from parse_request_uri shuffle lookup mode ≡ ok auth
        → IsAuth parse_request_uri auth
    unfolding auth_from
    auth_from-IsAuth lookup mode auth e =
        let (listed, e1) =
          guard_passed (not (text_eq mode (codes "api_key")) && not (text_eq mode (codes "oauth")))
            _ _ e in
        elim (Bool-cases (text_eq mode (codes "oauth"))) [
          | inl with ↦
              let (o, loaded, same) =
                with_oauth_ok (oauth_from parse_request_uri shuffle lookup) auth (rw with at e1) in
              subst (IsAuth parse_request_uri) same (oauth_from-IsOAuth lookup o loaded)
          | inr without ↦
              let plain : ok key_of_request ≡ ok auth = rw without at e1 in
              subst (IsAuth parse_request_uri) (ok_injective (ok key_of_request) refl plain) tt
        ]

    module _ (unicode_lower : Text → Text) (url_text : Text → Text → Text)
        (parse_prefix : Text → Option Prefix) (parse : Text → Option Url) where
      -- Whatever the environment holds, a configuration that loads has: numbers within their bounds;
      -- a base URL by HTTPS, or by HTTP to this machine, without credentials, query, fragment or
      -- encoded path, whose path ends with a slash; in OAuth mode a server key of 1 to 1024 bytes, an
      -- audience of 1 to 2048, three addresses that are such URLs too, and 1 to 20 scopes, each a
      -- token of 1 to 128 bytes. The order in which a loop meets a map's entries does not matter.
      pub load_from-IsLoaded :
          (lookup : Text → Option Text) (c : Config)
          → load_from parse_request_uri shuffle unicode_lower url_text parse_prefix parse lookup
            ≡ ok c
          → IsLoaded parse_request_uri c
      unfolding load_from
      load_from-IsLoaded lookup c e =
          let origin = config_origin parse_request_uri unicode_lower url_text in
          let endpoint =
            trim_space
              (get lookup (codes "SYNTHIENT_GRPC_ENDPOINT") (codes "grpc.synthient.com:443")) in
          let mode =
            to_lower unicode_lower
              (trim_space (get lookup (codes "AUTH_MODE") (codes "api_key"))) in
          let format =
            to_lower unicode_lower (trim_space (get lookup (codes "LOG_FORMAT") (codes "text"))) in
          let parsed = parse (
            get lookup (codes "SYNTHIENT_API_BASE_URL")
              (codes "https://api.synthient.com/api/v4/")) in
          let (settings, chosen, e1) =
            bind_steps (settings_from unicode_lower origin parse_prefix lookup) _ e in
          let (base, based, e2) = bind_steps (base_url_of parsed) _ e1 in
          let (t, dialled, e3) = bind_steps (validate_grpc_endpoint endpoint) _ e2 in
          let (auth, authed, e4) =
            bind_steps (auth_from parse_request_uri shuffle lookup mode) _ e3 in
          let (level, logged, e5) =
            bind_steps
              (parse_log_level unicode_lower (get lookup (codes "LOG_LEVEL") (codes "info"))) _
              e4 in
          let (t2, formatted, last) =
            bind_steps (refuse_if bad_log_format (not (is_log_format format))) _ e5 in
          let (secure, no_raw, slash) = base_url_of-IsSecure parsed base based in
          subst (IsLoaded parse_request_uri) (ok_injective (ok _) refl last) (record {
            numbers =
                settings_from-IsInRange unicode_lower origin parse_prefix lookup settings chosen;
            secure = secure;
            no_raw_path = no_raw;
            slash = slash;
            auth = auth_from-IsAuth lookup mode auth authed;
          })
