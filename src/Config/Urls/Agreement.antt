-- ===== src/Config/Urls/Agreement.antt =====
-- The configuration and the request handler read origins alike.
use mathlib.Core.List.{Memᴰ}
use synthient_mcp.Prelude.{
  ok, bind_steps, List, [], ◌∷◌, ◌≡◌, refl, ◌∙◌, ap, inl, inr, Bool, true, false, not, ◌&&◌, ◌||◌,
  Option, none, some, Bool-cases, arith,
}
use synthient_mcp.Text.{Text, codes, text_eq, starts_with, member, trim_space, to_lower, split}
use synthient_mcp.Text.Equality.{text_eq→eq, text_eq_refl}
use synthient_mcp.Net.Url.{Url, hostname, strip_port}
use synthient_mcp.HttpServer.Origin.{
  Request, passed, is_plain_origin, canonical_url, canonical_origin, request_origin,
  require_exact_origin,
}
use synthient_mcp.Config.{Error, bad_origin}
use synthient_mcp.Config.Settings.{item_or_error, parse_items, origins}
use synthient_mcp.Config.Urls.{checked_origin, config_origin, has_web_scheme}

-- A URL without a host has no host name.
hostname-nil : (u : Url) → text_eq u.host [] ≡ true → text_eq (hostname u) [] ≡ true
unfolding hostname
hostname-nil u e =
    let same : u.host ≡ [] = text_eq→eq u.host [] e in
    rw same (unfold strip_port starts_with text_eq in refl)

plain_origin :
    (host name user path query fragment web : Bool)
    → (host ≡ true → name ≡ true)
    → (name || not web) ≡ false
    → (user || path || not query || not fragment) ≡ false
    → not (host || user || path || not query || not fragment) ≡ true
plain_origin host name user path query fragment web h e k = ground arith

module _ (unicode_lower : Text → Text) (parse_request_uri : Text → Option Url)
    (url_text : Text → Text → Text) where
  checked_origin-canonical_url :
      (parsed : Option Url) (c : Text)
      → checked_origin parse_request_uri unicode_lower url_text parsed ≡ some c
      → canonical_url unicode_lower parse_request_uri url_text parsed ≡ some c
  checked_origin-canonical_url none c e = absurd (cc)
  checked_origin-canonical_url (some u) c e =
      elim (Bool-cases
        (text_eq (hostname u) [] || not (has_web_scheme (to_lower unicode_lower u.scheme)))) [
          | inl bad ↦ absurd (ground arith)
          | inr web ↦
              elim (Bool-cases (
                u.has_user
                || (not (text_eq u.path []) && not (text_eq u.path (codes "/")))
                || not (text_eq u.raw_query [])
                || not (text_eq u.fragment []))) [
                  | inl extra ↦ absurd (ground arith)
                  | inr bare ↦
                      let plain : is_plain_origin u ≡ true =
                        plain_origin (text_eq u.host []) (text_eq (hostname u) []) u.has_user
                          (not (text_eq u.path []) && not (text_eq u.path (codes "/")))
                          (text_eq u.raw_query []) (text_eq u.fragment [])
                          (has_web_scheme (to_lower unicode_lower u.scheme)) (hostname-nil u) web
                          bare in
                      rw plain (ground arith)
                ]
        ]

  config_origin-canonical_origin :
      (value c : Text)
      → config_origin parse_request_uri unicode_lower url_text value ≡ some c
      → canonical_origin unicode_lower parse_request_uri url_text value ≡ some c
  unfolding config_origin canonical_origin
  config_origin-canonical_origin value c e =
      checked_origin-canonical_url (parse_request_uri value) c e

  member_head : (a : Text) (rest : List Text) → member a (a ∷ rest) ≡ true
  unfolding member
  member_head a rest = rw (text_eq_refl a) refl

  member_later : (a b : Text) (rest : List Text) → member a rest ≡ true → member a (b ∷ rest) ≡ true
  unfolding member
  member_later a b rest h = elim (Bool-cases (text_eq b a)) [
    | inl hit ↦ rw hit refl
    | inr miss ↦ rw miss h
  ]

  item_read : (e : Error) (o : Option Text) (a : Text) → item_or_error e o ≡ ok a → o ≡ some a
  item_read e none a h = absurd (cc)
  item_read e (some b) a h = ground arith

  parse_items_step :
      (parse : Text → Option Text) (failure : Text → Error) (i : Text) (items found : List Text)
      → parse_items parse failure (i ∷ items) ≡ ok found
      → (first : Text) × (rest : List Text) × (parse (trim_space i) ≡ some first)
        × (parse_items parse failure items ≡ ok rest)
        × (found ≡ first ∷ rest)
  unfolding parse_items
  parse_items_step parse failure i items found e =
      let (first, read, e1) =
        bind_steps (item_or_error (failure (trim_space i)) (parse (trim_space i))) _ e in
      let (rest, others, e2) = bind_steps (parse_items parse failure items) _ e1 in
      (
        first,
        rest,
        item_read (failure (trim_space i)) (parse (trim_space i)) first read,
        others,
        ground arith,
      )

  -- Each item of a setting is among those read.
  parsed_item :
      (parse : Text → Option Text) (failure : Text → Error) (items found : List Text) (item : Text)
      → parse_items parse failure items ≡ ok found
      → Memᴰ item items
      → (a : Text) × (parse (trim_space item) ≡ some a) × (member a found ≡ true)
  parsed_item parse failure [] found item e listed = elim listed [ ]
  parsed_item parse failure (i ∷ items) found item e (Memᴰ.head same) =
      let (first, rest, read, others, whole) = parse_items_step parse failure i items found e in
      (first, ap (λ t. parse (trim_space t)) same ∙ read, rw whole (member_head first rest))
  parsed_item parse failure (i ∷ items) found item e (Memᴰ.tail later) =
      let (first, rest, read, others, whole) = parse_items_step parse failure i items found e in
      let (a, found_there, inside) = parsed_item parse failure items rest item others later in
      (a, found_there, rw whole (member_later a first rest inside))

  abbrev configured : Text → Option Text
  configured item = config_origin parse_request_uri unicode_lower url_text item

  origins_parsed :
      (lookup : Text → Option Text) (name value : Text) (allowed : List Text)
      → lookup name ≡ some value
      → text_eq (trim_space value) [] ≡ false
      → origins configured lookup name ≡ ok allowed
      → parse_items configured (bad_origin name) (split b',' value) ≡ ok allowed
  unfolding origins
  origins_parsed lookup name value allowed set filled e = rw (set, filled) at e

  allowed_passes :
      (allowed : List Text) (r : Request) (canonical : Text)
      → canonical_origin unicode_lower parse_request_uri url_text r.origin ≡ some canonical
      → member canonical allowed ≡ true
      → require_exact_origin unicode_lower parse_request_uri url_text allowed r ≡ passed
  unfolding require_exact_origin
  allowed_passes allowed r canonical read inside = elim (Bool-cases (text_eq r.origin [])) [
    | inl none_sent ↦ rw none_sent refl
    | inr sent ↦
        elim (Bool-cases
          (text_eq canonical (request_origin unicode_lower parse_request_uri url_text r))) [
            | inl own ↦ rw (sent, read, own) refl
            | inr other ↦ rw (sent, read, other, inside) refl
          ]
  ]

  -- What an operator writes in the setting of the origins works: a browser that sends an origin as
  -- it stands there, between blanks, passes requireExactOrigin, whatever server it asks. The two
  -- parsers, of the configuration and of the handler, agree on each origin that loads.
  pub origins-passed :
      (lookup : Text → Option Text) (name value : Text) (allowed : List Text) (item : Text)
      (r : Request)
      → lookup name ≡ some value
      → text_eq (trim_space value) [] ≡ false
      → origins configured lookup name ≡ ok allowed
      → Memᴰ item (split b',' value)
      → r.origin ≡ trim_space item
      → require_exact_origin unicode_lower parse_request_uri url_text allowed r ≡ passed
  origins-passed lookup name value allowed item r set filled e listed sent =
      let (canonical, read, inside) =
        parsed_item configured (bad_origin name) (split b',' value) allowed item
          (origins_parsed lookup name value allowed set filled e) listed in
      allowed_passes allowed r canonical
        (config_origin-canonical_origin r.origin canonical (ap configured sent ∙ read)) inside
