-- ===== src/Net/Url.antt =====
-- What the program uses of Go's net/url and path: URLs with the decoded and the encoded form of
-- their path, PathEscape, QueryEscape, EscapedPath, JoinPath, Hostname and path.Clean.
pub mod Escaping
pub mod Segments
pub mod Cleaning
pub mod Joining
pub mod Relative
use synthient_mcp.Prelude.{
  ℕ, zero, suc, ◌+◌, ◌-◌, ◌*◌, ◌/◌, ◌%◌, List, [], ◌∷◌, ◌++◌, Bool, true, false, not, ◌&&◌, ◌||◌,
  Option, none, some, leb, ltb, ◌==◌, if◌then◌else◌, reverse, all, any, drop, map,
}
use synthient_mcp.Text.{Text, codes, text_eq, starts_with, ends_with, split}

-- `*url.URL`; its user information is there or not.
pub record Url : Type 0 where
  pub scheme : Text
  pub opaque : Text
  pub has_user : Bool
  pub host : Text
  pub path : Text
  pub raw_path : Text
  pub raw_query : Text
  pub fragment : Text

-- The modes of escaping: a path, one segment of a path, a component of a query.
pub data Mode : Type 0 where
  path_mode segment_mode query_mode : Mode

abbrev pub is_alphanumeric : ℕ → Bool
is_alphanumeric c =
    (leb b'a' c && leb c b'z') || (leb b'A' c && leb c b'Z') || (leb b'0' c && leb c b'9')

abbrev pub is_unreserved : ℕ → Bool
is_unreserved c = is_alphanumeric c || c == b'-' || c == b'_' || c == b'.' || c == b'~'

abbrev pub kept_in_segment : ℕ → Bool
kept_in_segment c = c == b'$' || c == b'&' || c == b'+' || c == b':' || c == b'=' || c == b'@'

-- The bytes that stand for themselves: `!shouldEscape(c, mode)`.
abbrev pub is_kept : Mode → ℕ → Bool
is_kept path_mode c = is_unreserved c || kept_in_segment c || c == b'/' || c == b';' || c == b','
is_kept segment_mode c = is_unreserved c || kept_in_segment c
is_kept query_mode c = is_unreserved c

abbrev pub hex_upper : ℕ → ℕ
hex_upper d = if ltb d 10 then b'0' + d else 55 + d

abbrev pub percent : ℕ → Text → Text
percent c s = b'%' ∷ hex_upper (c / 16 % 16) ∷ hex_upper (c % 16) ∷ s

abbrev pub plus_for_blank : Mode → ℕ → Bool
plus_for_blank query_mode c = c == 32
plus_for_blank _ c = false

unfoldable pub escape : Mode → Text → Text
escape mode [] = []
escape mode (c ∷ s) =
    let rest = escape mode s in
    if is_kept mode c
    then c ∷ rest
    else if plus_for_blank mode c
    then b'+' ∷ rest
    else percent c rest

abbrev pub path_escape : Text → Text
path_escape s = escape segment_mode s

abbrev pub hex_value : ℕ → Option ℕ
hex_value c =
    if leb b'0' c && leb c b'9'
    then some (c - b'0')
    else if leb b'a' c && leb c b'f'
    then some (c - 87)
    else if leb b'A' c && leb c b'F'
    then some (c - 55)
    else none

abbrev pub prepend : Option ℕ → Option ℕ → Option Text → Option Text
prepend (some a) (some b) (some s) = some ((a * 16 + b) ∷ s)
prepend _ _ _ = none

abbrev pub prepend_byte : ℕ → Option Text → Option Text
prepend_byte c (some s) = some (c ∷ s)
prepend_byte c none = none

-- `unescape` of a path or of one of its segments; `none` is its error.
unfoldable pub unescape : Text → Option Text
unescape [] = some []
unescape (c ∷ []) = if c == b'%' then none else some (c ∷ [])
unescape (c ∷ a ∷ []) =
    let rest = unescape (a ∷ []) in if c == b'%' then none else prepend_byte c rest
unescape (c ∷ a ∷ b ∷ s) =
    let decoded = unescape s in
    let rest = unescape (a ∷ b ∷ s) in
    if c == b'%' then prepend (hex_value a) (hex_value b) decoded else prepend_byte c rest

-- The bytes that validEncoded lets stand in an encoded path.
abbrev pub is_encoded_byte : ℕ → Bool
is_encoded_byte c =
    c == b'!'
    || c == 39
    || c == b'('
    || c == b')'
    || c == b'*'
    || c == b'['
    || c == b']'
    || c == b'%'
    || is_kept path_mode c

abbrev pub is_path : Text → Option Text → Bool
is_path path none = false
is_path path (some decoded) = text_eq decoded path

-- `u.EscapedPath()`.
unfoldable pub escaped_path : Url → Text
unfolding escape unescape text_eq
escaped_path u =
    if not (text_eq u.raw_path [])
      && (all is_encoded_byte u.raw_path && is_path u.path (unescape u.raw_path))
    then u.raw_path
    else if text_eq u.path (codes "*")
    then codes "*"
    else escape path_mode u.path

-- The segments with a slash before each.
unfoldable pub rooted : List Text → Text
rooted [] = []
rooted (s ∷ segments) = b'/' ∷ s ++ rooted segments

abbrev pub tail : List Text → List Text
tail [] = []
tail (s ∷ segments) = segments

-- The segments of a clean path, the last first: one more segment.
unfoldable pub push_segment : List Text → Text → List Text
unfolding text_eq
push_segment segments s =
    if text_eq s [] || text_eq s (codes ".")
    then segments
    else if text_eq s (codes "..")
    then tail segments
    else s ∷ segments

unfoldable pub push_segments : List Text → List Text → List Text
unfolding push_segment
push_segments segments [] = segments
push_segments segments (s ∷ rest) = push_segments (push_segment segments s) rest

abbrev pub slash_if_empty : Text → Text
slash_if_empty [] = codes "/"
slash_if_empty s = s

-- `path.Clean` of a path that starts with a slash.
unfoldable pub clean : Text → Text
unfolding rooted push_segments split
clean s = slash_if_empty (rooted (reverse (push_segments [] (split b'/' s))))

abbrev pub keep_slash : Text → Text → Text
keep_slash element p =
    if ends_with element (codes "/") && not (ends_with p (codes "/")) then p ++ codes "/" else p

-- The path that JoinPath gives to setPath, for a path `from` and one element that is not empty.
unfoldable pub joined_path : Text → Text → Text
unfolding clean starts_with ends_with
joined_path from element = keep_slash element (
    if starts_with from (codes "/")
    then clean (from ++ (codes "/" ++ element))
    else drop 1 (clean (codes "/" ++ (from ++ (codes "/" ++ element)))))

abbrev pub set_decoded : Url → Text → Option Text → Url
set_decoded u p none = u
set_decoded u p (some decoded) = record u {
  path = decoded;
  raw_path = if text_eq p (escape path_mode decoded) then [] else p;
}

-- `u.setPath(p)`, whose error JoinPath drops.
unfoldable pub set_path : Url → Text → Url
unfolding unescape escape text_eq
set_path u p = set_decoded u p (unescape p)

unfoldable pub join_path : Url → Text → Url
unfolding set_path joined_path escaped_path
join_path u element = set_path u (joined_path (escaped_path u) element)

-- The host without a port, backwards, where digits and a colon stand at its end.
unfoldable pub strip_port : Text → Text → Text
strip_port host [] = host
strip_port host (c ∷ s) =
    let rest = strip_port host s in
    if leb b'0' c && leb c b'9' then rest else if c == b':' then reverse s else host

abbrev pub strip_brackets : Text → Text
strip_brackets host =
    if starts_with host (codes "[") && ends_with host (codes "]")
    then reverse (drop 1 (reverse (drop 1 host)))
    else host

-- `u.Hostname()`.
unfoldable pub hostname : Url → Text
unfolding strip_port starts_with ends_with
hostname u = strip_brackets (strip_port u.host (reverse u.host))
