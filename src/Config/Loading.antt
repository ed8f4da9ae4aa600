-- ===== src/Config/Loading.antt =====
-- LoadFrom of go/internal/config/config.go: the settings, the URLs, the mode of authentication and
-- the log. The parsers of URLs and prefixes and the order in which a loop meets the entries of a map
-- are parameters.
pub mod Scopes
pub mod Loaded
pub mod Bare
use synthient_mcp.Prelude.{
  Result, ok, err, ◌>>=◌, ℕ, List, [], ◌∷◌, ◌++◌, Bool, true, false, not, ◌&&◌, ◌||◌, Option, none,
  some, ltb, ◌==◌, any, if◌then◌else◌, length,
}
use synthient_mcp.Text.{Text, codes, text_eq, trim_space, to_lower}
use synthient_mcp.Text.Decimal.{itoa}
use synthient_mcp.Net.{Prefix}
use synthient_mcp.Net.Url.{Url}
use synthient_mcp.Config.{
  Error, base_unparsed, bad_auth_mode, bad_api_key, bad_audience, bad_log_format, get, scope_list,
  validate_grpc_endpoint, LogLevel, parse_log_level,
}
use synthient_mcp.Config.Settings.{Settings, settings_from, refuse_if}
use synthient_mcp.Config.Urls.{validate_base_url, with_slash, validate_secure_url, config_origin}

-- The settings of the OAuth mode.
pub record OAuth : Type 0 where
  pub api_key : Text
  pub issuer_url : Text
  pub jwks_url : Text
  pub audience : Text
  pub resource_url : Text
  pub required_scopes : List Text

pub data Auth : Type 0 where
  key_of_request : Auth
  oauth : OAuth → Auth

pub record Config : Type 0 where
  pub settings : Settings
  pub base_url : Url
  pub grpc_endpoint : Text
  pub auth : Auth
  pub log_level : LogLevel
  pub log_json : Bool

abbrev pub parsed_url : Option Url → Result Error Url
parsed_url none = err base_unparsed
parsed_url (some u) = ok u

unfoldable pub base_url_of : Option Url → Result Error Url
unfolding validate_base_url with_slash
base_url_of parsed = do u ← parsed_url parsed; _ ← validate_base_url u; ok (with_slash u)

abbrev pub is_bounded : ℕ → Text → Bool
is_bounded limit value = not (text_eq value [] || ltb limit (length value))

abbrev pub is_log_format : Text → Bool
is_log_format format = text_eq format (codes "text") || text_eq format (codes "json")

-- `net.JoinHostPort`.
abbrev pub join_host_port : Text → Text → Text
join_host_port host port =
    if any (λ c. c == b':') host
    then codes "[" ++ host ++ codes "]:" ++ port
    else host ++ codes ":" ++ port

-- Config.Address.
unfoldable pub address : Settings → Text
unfolding itoa
address settings = join_host_port settings.host (itoa settings.port)

module _ (parse_request_uri : Text → Option Url) where
  -- The loop over the URLs of the OAuth mode.
  unfoldable pub check_urls : List (Text × Text) → Result Error (Unit {0})
  unfolding validate_secure_url
  check_urls [] = ok tt
  check_urls ((name, value) ∷ urls) = do
    _ ← validate_secure_url parse_request_uri name value
    check_urls urls

  module _ (shuffle : List (Text × Text) → List (Text × Text)) where
    unfoldable pub oauth_from : (Text → Option Text) → Result Error OAuth
    unfolding check_urls scope_list trim_space text_eq
    oauth_from lookup = do
      let api_key = trim_space (get lookup (codes "SYNTHIENT_API_KEY") [])
      _ ← refuse_if bad_api_key (not (is_bounded 1024 api_key))
      let issuer = trim_space (get lookup (codes "OAUTH_ISSUER_URL") [])
      let jwks = trim_space (get lookup (codes "OAUTH_JWKS_URL") [])
      let audience = trim_space (get lookup (codes "OAUTH_AUDIENCE") [])
      let resource = trim_space (get lookup (codes "MCP_RESOURCE_URL") [])
      _ ← check_urls (
          shuffle (
            (codes "OAUTH_ISSUER_URL", issuer)
            ∷ (codes "OAUTH_JWKS_URL", jwks)
            ∷ (codes "MCP_RESOURCE_URL", resource)
            ∷ []))
      _ ← refuse_if bad_audience (not (is_bounded 2048 audience))
      scopes ← scope_list (get lookup (codes "OAUTH_REQUIRED_SCOPES") (codes "mcp:tools"))
      ok (record {
        api_key = api_key;
        issuer_url = issuer;
        jwks_url = jwks;
        audience = audience;
        resource_url = resource;
        required_scopes = scopes;
      })

    abbrev pub with_oauth : Result Error OAuth → Result Error Auth
    with_oauth (ok settings) = ok (oauth settings)
    with_oauth (err e) = err e

    unfoldable pub auth_from : (Text → Option Text) → Text → Result Error Auth
    unfolding oauth_from text_eq
    auth_from lookup mode =
        let oauth_mode = with_oauth (oauth_from lookup) in
        if not (text_eq mode (codes "api_key")) && not (text_eq mode (codes "oauth"))
        then err bad_auth_mode
        else if text_eq mode (codes "oauth")
        then oauth_mode
        else ok key_of_request

    module _ (unicode_lower : Text → Text) (url_text : Text → Text → Text)
        (parse_prefix : Text → Option Prefix) (parse : Text → Option Url) where
      -- The text of a setting without blanks at its ends, in lower case.
      abbrev word : (Text → Option Text) → Text → Text → Text
      word lookup name fallback = to_lower unicode_lower (trim_space (get lookup name fallback))

      unfoldable pub load_from : (Text → Option Text) → Result Error Config
      unfolding settings_from base_url_of validate_grpc_endpoint auth_from parse_log_level to_lower
          trim_space text_eq config_origin
      load_from lookup = do
        settings ←
            settings_from unicode_lower (config_origin parse_request_uri unicode_lower url_text)
              parse_prefix lookup
        base ← base_url_of (
            parse (
              get lookup (codes "SYNTHIENT_API_BASE_URL")
                (codes "https://api.synthient.com/api/v4/")))
        let endpoint =
            trim_space
              (get lookup (codes "SYNTHIENT_GRPC_ENDPOINT") (codes "grpc.synthient.com:443"))
        _ ← validate_grpc_endpoint endpoint
        auth ← auth_from lookup (word lookup (codes "AUTH_MODE") (codes "api_key"))
        level ← parse_log_level unicode_lower (get lookup (codes "LOG_LEVEL") (codes "info"))
        let format = word lookup (codes "LOG_FORMAT") (codes "text")
        _ ← refuse_if bad_log_format (not (is_log_format format))
        ok (record {
          settings = settings;
          base_url = base;
          grpc_endpoint = endpoint;
          auth = auth;
          log_level = level;
          log_json = text_eq format (codes "json");
        })
