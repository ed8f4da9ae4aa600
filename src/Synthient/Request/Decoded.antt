-- ===== src/Synthient/Request/Decoded.antt =====
-- What the other side reads: the segments of an encoded path, each without its escapes.
use synthient_mcp.Prelude.{
  ok, List, [], ◌∷◌, ◌++◌, ◌≡◌, refl, ◌∙◌, ap, Option, none, some, map, All,
}
use synthient_mcp.Text.{Text, split}
use synthient_mcp.Text.Search.{Lacks}
use synthient_mcp.Net.Url.{
  Url, path_mode, segment_mode, escape, path_escape, escaped_path, unescape, rooted, tail,
}
use synthient_mcp.Net.Url.Escaping.{unescape-escape}
use synthient_mcp.Net.Url.Segments.{IsPlain}
use synthient_mcp.Net.Url.Cleaning.{split-rooted}
use synthient_mcp.Synthient.Request.{resolve}
use synthient_mcp.Synthient.Request.Targets.{
  IsBase, encoded_segments, resolve-IsAt, encoded_segments-IsEscaped,
}

abbrev cons_some : Option Text → Option (List Text) → Option (List Text)
cons_some (some s) (some segments) = some (s ∷ segments)
cons_some _ _ = none

unfoldable decode_segments : List Text → Option (List Text)
unfolding unescape
decode_segments [] = some []
decode_segments (s ∷ segments) = cons_some (unescape s) (decode_segments segments)

-- The segments of an encoded path that starts with a slash.
unfoldable pub read_path : Text → Option (List Text)
unfolding decode_segments split
read_path p = decode_segments (tail (split b'/' p))

decode_base :
    (base rest : List Text) (decoded : List Text)
    → All (λ s. IsPlain s × Lacks b'/' s) base
    → decode_segments rest ≡ some decoded
    → decode_segments (map (escape path_mode) base ++ rest) ≡ some (base ++ decoded)
unfolding decode_segments
decode_base [] rest decoded h e = e
decode_base (s ∷ base) rest decoded h e =
    rw (unescape-escape path_mode s (cc) h.0.0.bytes, decode_base base rest decoded h.1 e) refl

decode_path :
    (path : List Text) → All IsPlain path → decode_segments (map path_escape path) ≡ some path
unfolding decode_segments
decode_path [] h = refl
decode_path (s ∷ path) h =
    rw (unescape-escape segment_mode s (cc) h.0.bytes, decode_path path h.1) refl

-- For a base URL without an encoded path of its own, whose path is one or more segments, each behind a
-- slash, with a slash at the end, and for one or more segments that follow: where none of them is
-- empty, `.` or `..` and those of the base have no slash, the segments resolve, and who reads the
-- encoded path of the endpoint at its slashes finds the segments of the base and then the segments
-- given, each whole, whatever slashes, percent signs and other bytes it has.
pub read_path-resolve :
    (base : Url) (b : Text) (bs : List Text) (x : Text) (path : List Text)
    → IsBase base b bs
    → All IsPlain (x ∷ path)
    → (endpoint : Url) × (resolve base (x ∷ path) ≡ ok endpoint)
      × (read_path (escaped_path endpoint) ≡ some (b ∷ bs ++ x ∷ path))
read_path-resolve base b bs x path h plain =
    let (endpoint, found, at) = resolve-IsAt base b bs x path h plain in
    (endpoint, found, ap read_path at.spelled ∙ reading)
  where
    parts :
        split b'/' (rooted (encoded_segments (b ∷ bs) (x ∷ path)))
        ≡ [] ∷ encoded_segments (b ∷ bs) (x ∷ path)
    parts =
        split-rooted (encoded_segments (b ∷ bs) (x ∷ path))
          (encoded_segments-IsEscaped (b ∷ bs) (x ∷ path) h.plain plain)

    reading : read_path (rooted (encoded_segments (b ∷ bs) (x ∷ path))) ≡ some (b ∷ bs ++ x ∷ path)
    reading =
        opened
        ∙ ap (λ ps. decode_segments (tail ps)) parts
        ∙ decode_base (b ∷ bs) (map path_escape (x ∷ path)) (x ∷ path) h.plain
            (decode_path (x ∷ path) plain)
      where
        opened :
            read_path (rooted (encoded_segments (b ∷ bs) (x ∷ path)))
            ≡ decode_segments (tail (split b'/' (rooted (encoded_segments (b ∷ bs) (x ∷ path)))))
        opened = unfold read_path in refl
