-- ===== src/McpServer/Streams.antt =====
-- The feed catalogue of go/internal/mcpserver/feeds.go: feedStreams, normalizeFeedStream, contains
-- and liveStreamCount, and feedPath of go/internal/synthient/feeds.go.
pub mod Laws
use synthient_mcp.Prelude.{
  Result, ok, err, ◌>>=◌, ℕ, suc, ◌+◌, List, [], ◌∷◌, Bool, true, false, not, ◌&&◌, ◌||◌,
  if◌then◌else◌,
}
use synthient_mcp.Text.{Text, codes, text_eq, member, trim_space, to_lower}

pub record FeedStream : Type 0 where
  pub name : Text
  pub aliases : List Text
  pub description : Text
  pub required_scope : Text
  pub live : Bool

unfoldable pub feed_streams : List FeedStream
feed_streams =
    record {
      name = codes "proxies";
      aliases = codes "proxy" ∷ [];
      description =
          codes "Proxy IP observations across residential, datacenter, and mobile networks.";
      required_scope = codes "PROXY_FEEDS";
      live = true;
    }
    ∷ record {
      name = codes "anonymizers";
      aliases = codes "anonymizer" ∷ [];
      description = codes "VPN, Tor, private relay, and other anonymizer ranges.";
      required_scope = codes "ANONYMIZERS_FEED";
      live = true;
    }
    ∷ record {
      name = codes "torrents";
      aliases = codes "torrent" ∷ [];
      description = codes "DHT and tracker peer sightings with metadata and observed peers.";
      required_scope = codes "TORRENTS_FEED";
      live = true;
    }
    ∷ record {
      name = codes "honeypot_http";
      aliases = codes "helios_http" ∷ codes "http" ∷ [];
      description = codes "HTTP request captures from Helios honeypot sensors.";
      required_scope = codes "HONEYPOT_HTTP_FEED";
      live = true;
    }
    ∷ record {
      name = codes "honeypot_https";
      aliases = codes "helios_https" ∷ codes "https" ∷ codes "tls" ∷ [];
      description = codes "TLS ClientHello captures from Helios honeypot sensors.";
      required_scope = codes "HONEYPOT_HTTPS_FEED";
      live = true;
    }
    ∷ record {
      name = codes "honeypot_dns";
      aliases = codes "helios_dns" ∷ codes "dns" ∷ [];
      description = codes "DNS resolution observations from Helios honeypot tunnels.";
      required_scope = codes "HONEYPOT_DNS_FEED";
      live = false;
    }
    ∷ record {
      name = codes "honeypot_adb";
      aliases = codes "helios_adb" ∷ codes "adb" ∷ [];
      description = codes "Android Debug Bridge shell commands captured by Helios sensors.";
      required_scope = codes "HONEYPOT_ADB_FEED";
      live = false;
    }
    ∷ []

pub data Error : Type 0 where
  not_live unknown : Text → Error

-- The test of the loop: the value is the name of the stream or one of its aliases.
unfoldable pub matches : Text → FeedStream → Bool
unfolding text_eq member
matches value stream = text_eq value stream.name || member value stream.aliases

-- The loop of normalizeFeedStream over the catalogue.
unfoldable pub find_stream : Bool → Text → List FeedStream → Result Error FeedStream
unfolding matches
find_stream require_live value [] = err (unknown value)
find_stream require_live value (stream ∷ streams) =
    let rest = find_stream require_live value streams in
    if matches value stream
    then (if require_live && not stream.live then err (not_live stream.name) else ok stream)
    else rest

unfoldable pub normalize_feed_stream : (Text → Text) → Text → Bool → Result Error FeedStream
unfolding find_stream feed_streams trim_space to_lower
normalize_feed_stream unicode_lower value require_live =
    find_stream require_live (to_lower unicode_lower (trim_space value)) feed_streams

-- The loop of liveStreamCount.
unfoldable pub live_count : List FeedStream → ℕ
live_count [] = 0
live_count (stream ∷ streams) = if stream.live then suc (live_count streams) else live_count streams

-- feedPath: the honeypot feeds stand below `helio`.
unfoldable pub feed_path : Text → List Text
unfolding text_eq
feed_path stream =
    if text_eq stream (codes "honeypot_http")
    then codes "helio" ∷ codes "http" ∷ []
    else if text_eq stream (codes "honeypot_https")
    then codes "helio" ∷ codes "https" ∷ []
    else if text_eq stream (codes "honeypot_dns")
    then codes "helio" ∷ codes "dns" ∷ []
    else if text_eq stream (codes "honeypot_adb")
    then codes "helio" ∷ codes "adb" ∷ []
    else stream ∷ []
