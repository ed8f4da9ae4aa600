-- ===== src/Process.antt =====
-- go/cmd/server/main.go: the commands, the health check, the limits of the HTTP server, and serve
-- with its shutdown. The environment is the function `lookup`; the HTTP client of the health check,
-- and what serving returns, are parameters.
pub mod Shutdown
pub mod Health
use synthient_mcp.Prelude.{
  Result, ok, err, ◌>>=◌, ℕ, ◌*◌, List, [], ◌∷◌, ◌++◌, Bool, true, false, not, ◌||◌, Option, none,
  some, ltb, ◌==◌, if◌then◌else◌, length,
}
use synthient_mcp.Text.{Text, codes, text_eq, trim_space}
use synthient_mcp.Text.Decimal.{ℤ, pos, negsuc, atoi, itoa}
use synthient_mcp.Config.{get}
use synthient_mcp.Config.Loading.{join_host_port}
use synthient_mcp.HttpServer.Pipeline.{or_positive}

-- The commands of main; the arguments are those behind the name of the program.
pub data Command : Type 0 where
  version health stdio http : Command

unfoldable pub command_of : List Text → Command
unfolding text_eq
command_of (argument ∷ []) =
    if text_eq argument (codes "--version") || text_eq argument (codes "version")
    then version
    else if text_eq argument (codes "healthcheck")
    then health
    else if text_eq argument (codes "stdio")
    then stdio
    else http
command_of _ = http

abbrev pub second : ℕ
second = 1_000_000_000

-- The limits of http.Server, in nanoseconds and bytes.
pub record Limits : Type 0 where
  pub read_header_timeout : ℕ
  pub read_timeout : ℕ
  pub write_timeout : ℕ
  pub idle_timeout : ℕ
  pub max_header_bytes : ℕ

-- What newHTTPServer reads of the configuration.
pub record Asked : Type 0 where
  pub read_timeout : ℤ
  pub write_timeout : ℤ
  pub idle_timeout : ℤ
  pub max_header_bytes : ℤ

unfoldable pub http_limits : Asked → Limits
http_limits asked = record {
  read_header_timeout = 5 * second;
  read_timeout = or_positive (20 * second) asked.read_timeout;
  write_timeout = or_positive (20 * second) asked.write_timeout;
  idle_timeout = or_positive (60 * second) asked.idle_timeout;
  max_header_bytes = or_positive 32768 asked.max_header_bytes;
}

pub data HealthError : Type 0 where
  invalid_port no_answer : HealthError
  bad_status : (status : ℕ) → HealthError

abbrev pub checked_port : Option ℤ → Result HealthError ℕ
checked_port none = err invalid_port
checked_port (some (negsuc n)) = err invalid_port
checked_port (some (pos n)) = if ltb n 1 || ltb 65535 n then err invalid_port else ok n

-- The port that the health check asks; `os.Getenv` gives the empty text for a variable not set.
abbrev pub port_of : Text → Result HealthError ℕ
port_of [] = ok 3000
port_of (c ∷ value) = checked_port (atoi (c ∷ value))

unfoldable pub health_port : (Text → Option Text) → Result HealthError ℕ
unfolding atoi
health_port lookup = port_of (get lookup (codes "PORT") [])

abbrev pub health_url : ℕ → Text
health_url port =
    codes "http://" ++ join_host_port (codes "127.0.0.1") (itoa port) ++ codes "/healthz"

abbrev pub checked_status : Option ℕ → Result HealthError (Unit {0})
checked_status none = err no_answer
checked_status (some status) = if not (status == 200) then err (bad_status status) else ok tt

-- `fetch` is the GET of the client: the status, or none where it fails.
unfoldable pub healthcheck :
    (Text → Option ℕ) → (Text → Option Text) → Result HealthError (Unit {0})
unfolding health_port itoa
healthcheck fetch lookup = do port ← health_port lookup; checked_status (fetch (health_url port))

-- The key of the stdio server; none is the error of runStdioCommand.
abbrev pub bounded_key : Text → Option Text
bounded_key key = if text_eq key [] || ltb 1024 (length key) then none else some key

unfoldable pub stdio_key : (Text → Option Text) → Option Text
unfolding trim_space text_eq
stdio_key lookup = bounded_key (trim_space (get lookup (codes "SYNTHIENT_API_KEY") []))
