-- ===== src/McpServer/Streams/Laws.antt =====
-- Which stream a caller's word names.
use mathlib.Core.List.{Memᴰ}
use synthient_mcp.Prelude.{
  List, [], ◌∷◌, ◌≡◌, refl, sym, ◌∙◌, ◌↔◌, Bool, true, false, not, ◌&&◌, if◌then◌else◌, all, arith,
  inl, inr, Bool-cases, ok, err,
}
use synthient_mcp.Text.{Text, text_eq, member, trim_space, to_lower}
use synthient_mcp.Text.Equality.{text_eq→eq, text_eq_comm}
use synthient_mcp.McpServer.Streams.{
  FeedStream, feed_streams, not_live, matches, find_stream, normalize_feed_stream,
}

abbrev names : FeedStream → List Text
names s = s.name ∷ s.aliases

-- No word names two streams of the catalogue.
abbrev disjoint : List FeedStream → Bool
disjoint [] = true
disjoint (s ∷ ss) = all (λ t. all (λ n. not (matches n s)) (names t)) ss && disjoint ss

feed_streams-disjoint : disjoint feed_streams ≡ true
unfolding feed_streams matches
feed_streams-disjoint = refl

all-member :
    (p : Text → Bool) (v : Text) (ns : List Text)
    → all p ns ≡ true
    → member v ns ≡ true
    → p v ≡ true
unfolding member
all-member p v [] h m = absurd (cc)
all-member p v (n ∷ ns) h m = elim (Bool-cases (text_eq n v)) [
  | inl hit ↦ rw (sym (text_eq→eq n v hit)) (ground arith)
  | inr miss ↦ all-member p v ns (ground arith) (ground arith)
]

matches-member : (v : Text) (s : FeedStream) → matches v s ≡ true → member v (names s) ≡ true
unfolding matches member
matches-member v s h = ground (arith, text_eq_comm v s.name)

other_matches :
    (v : Text) (s t : FeedStream) (ss : List FeedStream)
    → all (λ u. all (λ n. not (matches n s)) (names u)) ss ≡ true
    → Memᴰ t ss
    → matches v t ≡ true
    → matches v s ≡ false
other_matches v s t [] h listed m = elim listed [ ]
other_matches v s t (u ∷ ss) h (Memᴰ.head same) m =
    let apart =
      all-member (λ n. not (matches n s)) v (names u) (ground arith)
        (matches-member v u (rw (← same) m)) in
    ground arith
other_matches v s t (u ∷ ss) h (Memᴰ.tail later) m = other_matches v s t ss (ground arith) later m

-- The stream that the catalogue has for a word, fit for what is asked.
pub record IsChosen (table : List FeedStream) (require_live : Bool) (value : Text) (s : FeedStream)
    : Type 0 where
  pub listed : Memᴰ s table
  pub named : matches value s ≡ true
  pub fit : (require_live && not s.live) ≡ false

find_stream_sound :
    (b : Bool) (v : Text) (table : List FeedStream) (s : FeedStream)
    → find_stream b v table ≡ ok s
    → IsChosen table b v s
unfolding find_stream
find_stream_sound b v [] s e = absurd (cc)
find_stream_sound b v (t ∷ ts) s e = elim (Bool-cases (matches v t)) [
  | inl hit ↦ elim (Bool-cases (b && not t.live)) [
    | inl unfit ↦ absurd (ground arith)
    | inr fit ↦
        let same : t ≡ s = ground arith in
        rw (← same) (record { listed = Memᴰ.head refl; named = hit; fit = fit })
  ]
  | inr miss ↦
      let c = find_stream_sound b v ts s (rw miss at e) in
      record { listed = Memᴰ.tail c.listed; named = c.named; fit = c.fit }
]

find_stream_named :
    (b : Bool) (v : Text) (table : List FeedStream) (s : FeedStream)
    → disjoint table ≡ true
    → Memᴰ s table
    → matches v s ≡ true
    → find_stream b v table ≡ (if b && not s.live then err (not_live s.name) else ok s)
unfolding find_stream
find_stream_named b v [] s d listed m = elim listed [ ]
find_stream_named b v (t ∷ ts) s d (Memᴰ.head same) m =
    let hit : matches v t ≡ true = rw (← same) m in rw same (rw hit refl)
find_stream_named b v (t ∷ ts) s d (Memᴰ.tail later) m =
    let miss = other_matches v t s ts (ground arith) later m in
    rw miss (find_stream_named b v ts s (ground arith) later m)

-- A word is resolved exactly to the one stream of the catalogue whose name or alias it is, between
-- blanks and in any case, if that stream is live where liveness is asked; so every name and alias
-- leads to its own stream.
pub normalize_feed_stream_iff :
    (unicode_lower : Text → Text) (value : Text) (require_live : Bool) (s : FeedStream)
    → (normalize_feed_stream unicode_lower value require_live ≡ ok s)
      ↔ IsChosen feed_streams require_live (to_lower unicode_lower (trim_space value)) s
unfolding normalize_feed_stream
normalize_feed_stream_iff u value b s = (
  λ e. find_stream_sound b (to_lower u (trim_space value)) feed_streams s e,
  λ c.
      find_stream_named b (to_lower u (trim_space value)) feed_streams s feed_streams-disjoint
        c.listed c.named
      ∙ ground (arith, c.fit),
)
