-- ===== src/Synthient/Request/Calls.antt =====
-- The requests of the calls that the handlers make.
use Prim.Native.String.{String}
use mathlib.Core.List.{Memᴰ}
use synthient_mcp.Prelude.{
  ℕ, ◌<◌, List, [], ◌∷◌, ◌++◌, ◌≡◌, refl, subst, Bool, true, false, Option, none, some, ◌==◌, not,
  ◌&&◌, ltb, any, all, and_true, All, All-append, arith, inl, inr, Bool-cases,
}
use synthient_mcp.Text.{Text, codes, split, text_eq}
use synthient_mcp.Text.Split.{join-split, join-All}
use synthient_mcp.Text.Decimal.{itoa, itoa-IsDigit, IsDigit}
use synthient_mcp.Net.Print.Charset.{IsAddressByte}
use synthient_mcp.Net.Print.Named.{addr_string-IsLettered, itoa-IsLettered}
use synthient_mcp.Net.Url.Escaping.{AreBytes}
use synthient_mcp.Net.Url.Segments.{IsPlain, IsLettered, lettered-IsNamed}
use synthient_mcp.McpServer.Domain.Laws.{IsDomain, IsLabel, IsLabelByte}
use synthient_mcp.McpServer.Snapshot.{is_date}
use synthient_mcp.McpServer.Snapshot.Laws.{IsSnapshot}
use synthient_mcp.McpServer.Streams.{FeedStream, feed_streams, feed_path}
use synthient_mcp.McpServer.Tools.{Call}
use synthient_mcp.McpServer.Tools.Addresses.{IsAddress}
use synthient_mcp.McpServer.Tools.Calls.{IsListed, IsSafe}
use synthient_mcp.Synthient.Request.{Target, target_of}

bytes-below {ℓ} : (P : ℕ → Type ℓ) (s : Text) → ((c : ℕ) → P c → c < 256) → All P s → AreBytes s
bytes-below P [] low h = tt
bytes-below P (c ∷ s) low h = (low c h.0, bytes-below P s low h.1)

address-IsPlain : (ip : Text) → IsAddress ip → IsPlain ip
address-IsPlain ip h = record {
  visible = lettered-IsNamed ip (rw h.printed (addr_string-IsLettered h.address h.plain));
  bytes = bytes-below IsAddressByte ip (λ c b. ground arith) h.bytes;
}

label-bytes : (labels : List Text) → All IsLabel labels → All (All (λ c. c < 256)) labels
label-bytes [] h = tt
label-bytes (l ∷ labels) h =
    (bytes-below IsLabelByte l (λ c b. ground arith) h.0.bytes, label-bytes labels h.1)

-- A domain starts with a byte of its first label.
first-IsLettered : (d : Text) → All IsLabel (split b'.' d) → IsLettered d
unfolding split
first-IsLettered [] h = absurd (omega (arith, h.0.short.0))
first-IsLettered (c ∷ s) h = elim (Bool-cases (c == b'.')) [
  | inl dot ↦
      let labels : All IsLabel ([] ∷ split b'.' s) = rw dot at h in
      absurd (omega (arith, labels.0.short.0))
  | inr other ↦ rw other refl
]

domain-IsPlain : (d : Text) → IsDomain d → IsPlain d
domain-IsPlain d h = record {
  visible = lettered-IsNamed d (first-IsLettered d h.labels);
  bytes =
      let joined =
        join-All (λ c. c < 256) b'.' (split b'.' d) (omega arith)
          (label-bytes (split b'.' d) h.labels) in
      rw (join-split b'.' d) at joined;
}

date-IsPlain : (date : Text) → is_date date ≡ true → IsPlain date
unfolding is_date
date-IsPlain (y ∷ e ∷ a ∷ r ∷ p ∷ m ∷ n ∷ q ∷ d ∷ f ∷ []) h = record {
  visible = lettered-IsNamed (y ∷ e ∷ a ∷ r ∷ p ∷ m ∷ n ∷ q ∷ d ∷ f ∷ []) (ground arith);
  bytes = ground arith;
}
date-IsPlain _ h = absurd (cc)

itoa-IsPlain : (n : ℕ) → IsPlain (itoa n)
itoa-IsPlain n = record {
  visible = lettered-IsNamed (itoa n) (itoa-IsLettered n);
  bytes = bytes-below IsDigit (itoa n) (λ c b. omega (arith, b.1)) (itoa-IsDigit n);
}

-- The test of a segment that is given.
abbrev pub is_plain : Text → Bool
is_plain s = any (λ c. not (c == b'.')) s && all (λ c. ltb c 256) s

below-bytes : (s : Text) → all (λ c. ltb c 256) s ≡ true → AreBytes s
below-bytes [] h = tt
below-bytes (c ∷ s) h = (ground arith, below-bytes s (ground arith))

pub is_plain-IsPlain : (s : Text) → is_plain s ≡ true → IsPlain s
is_plain-IsPlain s h = record {
  visible = lettered-IsNamed s (and_true _ _ h).0;
  bytes = below-bytes s (and_true _ _ h).1;
}

pub are_plain : (segments : List Text) → all is_plain segments ≡ true → All IsPlain segments
are_plain [] h = tt
are_plain (s ∷ segments) h =
    (is_plain-IsPlain s (and_true _ _ h).0, are_plain segments (and_true _ _ h).1)

listed_plain :
    (table : List FeedStream) (feed : FeedStream)
    → all (λ f. all is_plain (feed_path f.name)) table ≡ true
    → Memᴰ feed table
    → all is_plain (feed_path feed.name) ≡ true
listed_plain [] feed h listed = elim listed [ ]
listed_plain (f ∷ table) feed h (Memᴰ.head same) = rw same (and_true _ _ h).0
listed_plain (f ∷ table) feed h (Memᴰ.tail later) = listed_plain table feed (and_true _ _ h).1 later

catalogue_plain : all (λ f. all is_plain (feed_path f.name)) feed_streams ≡ true
unfolding feed_streams feed_path text_eq
catalogue_plain = refl

feed_path-IsPlain : (live : Bool) (name : Text) → IsListed live name → All IsPlain (feed_path name)
feed_path-IsPlain live name h =
    rw h.named (
      are_plain (feed_path h.feed.name) (listed_plain feed_streams h.feed catalogue_plain h.listed))

snapshot-IsPlain : (segments : List Text) → IsSnapshot segments → All IsPlain segments
snapshot-IsPlain segments IsSnapshot.latest = are_plain (codes "latest" ∷ []) refl
snapshot-IsPlain segments (IsSnapshot.day date dated) = (date-IsPlain date dated, tt)
snapshot-IsPlain segments (IsSnapshot.hour date n dated small) =
    (date-IsPlain date dated, (itoa-IsPlain n, tt))

-- A path that starts with plain segments.
abbrev pub IsPlainPath : List Text → Type 0
IsPlainPath path =
    (first : Text) × (others : List Text) × (path ≡ first ∷ others) × All IsPlain (first ∷ others)

below :
    (first : String) (others : List Text)
    → is_plain (codes first) ≡ true
    → All IsPlain others
    → IsPlainPath (codes first ∷ others)
below first others h plain = (codes first, others, refl, (is_plain-IsPlain (codes first) h, plain))

abbrev HasPlainPath : Option Target → Type 0
HasPlainPath none = Unit
HasPlainPath (some target) = IsPlainPath target.path

target_of-HasPlainPath : (longest : ℕ) (c : Call) → IsSafe longest c → HasPlainPath (target_of c)
unfolding target_of
target_of-HasPlainPath longest c IsSafe.account =
    below "account" (codes "me" ∷ []) refl (are_plain (codes "me" ∷ []) refl)
target_of-HasPlainPath longest c (IsSafe.one_ip {ip} address) =
    below "lookup" (codes "ip" ∷ ip ∷ []) refl
      (is_plain-IsPlain (codes "ip") refl, (address-IsPlain ip address, tt))
target_of-HasPlainPath longest c (IsSafe.several_ips size addresses) =
    below "lookup" (codes "ips" ∷ []) refl (are_plain (codes "ips" ∷ []) refl)
target_of-HasPlainPath longest c (IsSafe.domain {d} valid) =
    below "lookup" (codes "domain" ∷ d ∷ []) refl
      (is_plain-IsPlain (codes "domain") refl, (domain-IsPlain d valid, tt))
target_of-HasPlainPath longest c (IsSafe.snapshots {name} listed page short) =
    below "feeds" (feed_path name ++ codes "export" ∷ []) refl (
      All-append IsPlain (feed_path name) (codes "export" ∷ [])
        (feed_path-IsPlain false name listed) (are_plain (codes "export" ∷ []) refl))
target_of-HasPlainPath longest c (IsSafe.metadata {name} {segments} listed snapshot) =
    below "feeds" (feed_path name ++ codes "export" ∷ segments ++ codes "meta" ∷ []) refl (
      All-append IsPlain (feed_path name ++ codes "export" ∷ segments) (codes "meta" ∷ [])
        (All-append IsPlain (feed_path name) (codes "export" ∷ segments)
          (feed_path-IsPlain false name listed)
          (is_plain-IsPlain (codes "export") refl, snapshot-IsPlain segments snapshot))
        (are_plain (codes "meta" ∷ []) refl))
target_of-HasPlainPath longest c (IsSafe.sample {name} listed counted timed filtered) =
    below "feeds" (feed_path name ++ codes "stream" ∷ []) refl (
      All-append IsPlain (feed_path name) (codes "stream" ∷ []) (feed_path-IsPlain true name listed)
        (are_plain (codes "stream" ∷ []) refl))
target_of-HasPlainPath longest c (IsSafe.schema symbols) = tt

-- Every call that the handlers make has a target whose path is of plain segments, but for the one
-- that goes through the SDK.
pub target_of-IsPlainPath :
    (longest : ℕ) (c : Call) (target : Target)
    → IsSafe longest c
    → target_of c ≡ some target
    → IsPlainPath target.path
target_of-IsPlainPath longest c target safe e =
    subst HasPlainPath e (target_of-HasPlainPath longest c safe)
