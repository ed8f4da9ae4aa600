-- ===== src/Synthient/Request/Sendable.antt =====
-- What the endpoints are that the client hands to http.NewRequestWithContext: printable URLs at the
-- base's host, with nothing but a path and a query.
use synthient_mcp.Prelude.{
  ok, bind_steps, guard_passed, ok_injective, ℕ, ◌<◌, ◌/◌, ◌%◌, List, [], ◌∷◌, ◌++◌, ◌≡◌, refl, not,
  ◌&&◌, ◌==◌, leb, ltb, Bool, true, false, Option, none, some, all, All, arith, inl, inr,
  Bool-cases,
}
use synthient_mcp.Text.{Text, codes, text_eq, starts_with, trim_suffix}
use synthient_mcp.Net.Url.{
  Url, query_mode, is_kept, plus_for_blank, hex_upper, escape, unescape, path_escape, escaped_path,
  joined_path, is_encoded_byte, rooted, join_path, set_decoded, set_path,
}
use synthient_mcp.Synthient.Request.{
  Query, query_pair, encode_query, add_segments, resolve, is_below,
}

-- A URL without user information, opaque part, query and fragment.
pub record IsUnadorned (u : Url) : Type 0 where
  pub no_opaque : u.opaque ≡ []
  pub no_user : u.has_user ≡ false
  pub no_query : u.raw_query ≡ []
  pub no_fragment : u.fragment ≡ []

-- A printable byte other than the blank and the hash sign.
abbrev pub is_query_byte : ℕ → Bool
is_query_byte c = leb 33 c && ltb c 127 && not (c == b'#')

abbrev pub IsQueryByte : ℕ → Type 0
IsQueryByte c = is_query_byte c ≡ true

-- A URL at the scheme and the host of the base, with a path from the root whose encoded form is
-- valid, a printable query, and nothing else.
pub record IsSendable (base u : Url) : Type 0 where
  pub scheme : u.scheme ≡ base.scheme
  pub host : u.host ≡ base.host
  pub no_opaque : u.opaque ≡ []
  pub no_user : u.has_user ≡ false
  pub no_fragment : u.fragment ≡ []
  pub at_root : starts_with (escaped_path u) (codes "/") ≡ true
  pub valid : all is_encoded_byte (escaped_path u) ≡ true
  pub query : All IsQueryByte u.raw_query

-- Two URLs that are sent alike.
pub record IsSame (u v : Url) : Type 0 where
  pub scheme : v.scheme ≡ u.scheme
  pub host : v.host ≡ u.host
  pub spelled : escaped_path v ≡ escaped_path u
  pub query : v.raw_query ≡ u.raw_query

escape-query : (s : Text) → All IsQueryByte (escape query_mode s)
unfolding escape
escape-query [] = tt
escape-query (c ∷ s) =
    let rest = escape-query s in
    elim (Bool-cases (is_kept query_mode c)) [
      | inl kept ↦ rw kept (ground arith, rest)
      | inr coded ↦ elim (Bool-cases (plus_for_blank query_mode c)) [
        | inl blank ↦ rw (coded, blank) (refl, rest)
        | inr other ↦
            rw (coded, other)
              (refl, (digit (c / 16 % 16) (omega arith), (digit (c % 16) (omega arith), rest)))
      ]
    ]
  where
    digit : (d : ℕ) → d < 16 → IsQueryByte (hex_upper d)
    digit d h = ground arith

joined-query :
    (s t : Text) (c : ℕ)
    → IsQueryByte c
    → All IsQueryByte s
    → All IsQueryByte t
    → All IsQueryByte (s ++ (c ∷ []) ++ t)
joined-query [] t c hc hs ht = (hc, ht)
joined-query (d ∷ s) t c hc hs ht = (hs.0, joined-query s t c hc hs.1 ht)

query_pair-query : (pair : Text × Text) → All IsQueryByte (query_pair pair)
query_pair-query (key, value) =
    joined-query (escape query_mode key) (escape query_mode value) b'=' refl (escape-query key)
      (escape-query value)

pub encode_query-query : (query : Query) → All IsQueryByte (encode_query query)
unfolding encode_query
encode_query-query [] = tt
encode_query-query (pair ∷ []) = query_pair-query pair
encode_query-query (pair ∷ next ∷ query) =
    joined-query (query_pair pair) (encode_query (next ∷ query)) b'&' refl (query_pair-query pair)
      (encode_query-query (next ∷ query))

set_decoded-IsUnadorned :
    (u : Url) (p : Text) (decoded : Option Text)
    → IsUnadorned u
    → IsUnadorned (set_decoded u p decoded)
set_decoded-IsUnadorned u p none h = h
set_decoded-IsUnadorned u p (some decoded) h = record {
  no_opaque = h.no_opaque;
  no_user = h.no_user;
  no_query = h.no_query;
  no_fragment = h.no_fragment;
}

join_path-IsUnadorned : (u : Url) (e : Text) → IsUnadorned u → IsUnadorned (join_path u e)
unfolding join_path set_path
join_path-IsUnadorned u e h =
    set_decoded-IsUnadorned u (joined_path (escaped_path u) e)
      (unescape (joined_path (escaped_path u) e)) h

add_segments-IsUnadorned :
    (endpoint last : Url) (path : List Text)
    → IsUnadorned endpoint
    → add_segments endpoint path ≡ ok last
    → IsUnadorned last
unfolding add_segments
add_segments-IsUnadorned endpoint last [] h e =
    let same : endpoint ≡ last = ground arith in rw (← same) h
add_segments-IsUnadorned endpoint last (s ∷ path) h e = elim (Bool-cases (text_eq s [])) [
  | inl empty ↦ absurd (ground arith)
  | inr full ↦
      add_segments-IsUnadorned (join_path endpoint (path_escape s)) last path
        (join_path-IsUnadorned endpoint (path_escape s) h) (rw full at e)
]

-- Nothing but the path changes on the way to the endpoint.
pub resolve-IsUnadorned :
    (base endpoint : Url) (path : List Text)
    → IsUnadorned base
    → resolve base path ≡ ok endpoint
    → IsUnadorned endpoint
unfolding resolve
resolve-IsUnadorned base endpoint path h e =
    let start = record base { path = trim_suffix (codes "/") base.path } in
    let (last, added, later) = bind_steps (add_segments start path) _ e in
    let (below, same) = guard_passed (not (is_below base last)) _ _ later in
    let here : last ≡ endpoint = ok_injective (ok last) refl same in
    rw (← here) (
      add_segments-IsUnadorned start last path
        (record {
          no_opaque = h.no_opaque;
          no_user = h.no_user;
          no_query = h.no_query;
          no_fragment = h.no_fragment;
        })
        added)

pub rooted-at_root :
    (s : Text) (segments : List Text) → starts_with (rooted (s ∷ segments)) (codes "/") ≡ true
unfolding rooted starts_with
rooted-at_root s segments = refl
