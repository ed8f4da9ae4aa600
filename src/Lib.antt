-- ===== src/Lib.antt =====
-- Verification library of synthient-mcp, the Go server that offers the Synthient API as MCP tools.
--
-- The program. The process loads its configuration from the environment and serves until a signal
-- stops it. A request to /mcp passes, from the outside in, the checks of its origin, a limit on
-- concurrent requests, the check of a bearer token (in the mode oauth), the protection of the
-- endpoint (host, key, client address), a rate limit and a limit on concurrent requests of one
-- principal; then the MCP SDK calls the handler of a tool, which checks its input and makes one call
-- of the API client. The client builds a request below its base URL, sends it upstream, reads a
-- bounded answer, and removes credentials from it.
--
-- The files, by the part of the program they model:
--   * Synthient.Sanitize: sanitizeObject, sanitizeValue, sensitiveKey (go/internal/synthient/client.go)
--     on the JSON values of Synthient.Json. A Go map is a list of its fields in some order.
--   * Synthient.Response: what requestQuery does behind `Do`, errorDetail (client.go) and
--     streamError (go/internal/synthient/feeds.go). take_answer is the function's body from the
--     answer on, with the error paths as values of Failure.
--   * Synthient.Request: the operations of Client as the method, path, query and body that they send,
--     requestQuery and newRequest up to the request (client.go, feeds.go). Synthient.Decode:
--     decodeObject and the decoding of a line. Synthient.Upstream: requestQuery, requestAs and
--     SampleStream as a whole, with the HTTP client as a function from requests to answers.
--   * Synthient.Stream: the loop of SampleStream, matchesFilters (feeds.go). Its variables are the
--     record Progress; Synthient.Sprint is fmt.Sprint on decoded values, by which filters compare.
--   * HttpServer.Rate: principalRateLimiter (go/internal/httpserver/server.go). The record Limiter
--     is its state, handle is one request at an instant in nanoseconds.
--   * HttpServer.Concurrency: limitConcurrent and limitConcurrentPerPrincipal (server.go). Each
--     critical section is a function; Step is one section of any request, and Reach is any
--     interleaving of them.
--   * HttpServer.Protect: protectMCP, requestPrincipal, allowedRequestHost (server.go). The result
--     is the request that the next handler gets, or the refusal.
--   * HttpServer.Origin: requireExactOrigin, allowCORS, canonicalOriginHeader (server.go).
--   * HttpServer.Recorder: statusRecorder; HttpServer.Telemetry: the counters, as atomic additions of
--     many requests (server.go).
--   * HttpServer.Pipeline: the chain that newHandler builds, on the state Gate (the tokens of the
--     channel, the map of requests in flight, the rate limiter); leave is the end of a request that
--     reached the MCP handler. HttpServer.Routes: the patterns of the mux (server.go), with
--     resourceMetadataURL and resourceMetadataPath (go/internal/httpserver/oauth.go).
--   * HttpServer.Scopes: uniqueStrings; HttpServer.Tokens: oidcTokenVerifier behind the library's
--     check, stringClaim, scopeClaim (oauth.go).
--   * Forwarding: the package go/internal/forwarding, with CanonicalClientIP.
--   * McpServer.Domain: normalizeDomain (go/internal/mcpserver/server.go).
--   * McpServer.Snapshot, Streams, Filters, Symbols: snapshotSegments, the feed catalogue with
--     normalizeFeedStream, validateFilters, validateSymbols (go/internal/mcpserver/feeds.go).
--   * McpServer.Tools: the handlers of all tools (server.go, feeds.go and legacy.go of
--     go/internal/mcpserver) up to the call that they make; normalizeIP.
--   * McpServer.Summaries: accountSummary, ipSummary, domainSummary, fallback and the formats of the
--     feed tools; McpServer.Replies: the handlers as a whole, on the interface API as a record.
--   * McpServer.Registry: the tools that New registers, with their names and annotations.
--   * McpServer.Schema: grpcSchemaOutput and summarizeServices (feeds.go).
--   * Config: integer, boolean, list, scopeList and the tests of hosts, endpoints and log levels
--     (go/internal/config/config.go); Config.Settings: LoadFrom up to its URLs; Config.Urls: the
--     tests of URLs and canonicalOrigin; Config.Loading: LoadFrom as a whole, and Address.
--   * Process: main's choice of a command, newHTTPServer, healthcheck and the key of the stdio
--     command (go/cmd/server/main.go); Process.Shutdown: serve, as a step on the state of its two
--     goroutines for each event. BuildInfo: UserAgent (go/internal/buildinfo/buildinfo.go).
--   * Text, Net, GoMap: what the program uses of Go's strings, strconv, net, net/netip and maps;
--     Net.Url: what it uses of net/url and path (URL with EscapedPath, JoinPath and Hostname,
--     PathEscape, PathUnescape, Clean).
--     Prelude has the shared names, tests on numbers, lists and results.
--   * Examples: runs of the definitions, and each theorem at a concrete input.
--
-- Conventions. A string is the list of its bytes. Numbers are natural numbers, and Go's int is ℤ
-- where it may be negative; no sum or product of the modelled code comes near 2^63. Loops over
-- slices are structural recursion. Text.trim_by runs on fuel, the length of the text, of which
-- each round drops at least one byte; Text.Decimal.itoa on fuel n + 1 for the digits of n.
--
-- A run of Process.Shutdown is a list of events, without fuel.
--
-- Parameters, which stand for code or tables that are not in the repository: unicode_lower (the
-- lower case of a text outside ASCII), decode, next and marshal (the JSON decoder and encoder),
-- renew (the URL that http.NewRequestWithContext makes of an endpoint, which it prints and parses
-- again), exchange (the HTTP client), scan (bufio.Scanner), digest (SHA-256 in hexadecimal),
-- cross_origin (the protection of net/http), bearer (the SDK's check of a bearer token), verify
-- (go-oidc), parse, print, parse_request_uri, url_text and parse_prefix (the parsers and printers
-- of URLs and address prefixes), shuffle (the order in which a loop meets the entries of a map).
-- Config.Settings takes canonical_origin as a parameter, for which Config.Loading has
-- config_origin. The theorems hold for every value of them that meets the hypotheses they name.
--
-- Not modelled: the MCP SDK and its schemas, the HTTP transport and its settings, TLS, gRPC
-- reflection with Client.GRPCSchema, and the verification of OAuth tokens, which are libraries or
-- calls of them; listening, the log and the text of /metrics and /healthz, which are I/O.
pub mod Process
pub mod BuildInfo
pub mod Prelude
pub mod Text
pub mod Synthient
pub mod GoMap
pub mod HttpServer
pub mod Net
pub mod Forwarding
pub mod Examples
pub mod McpServer
pub mod Config
