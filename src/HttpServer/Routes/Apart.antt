-- ===== src/HttpServer/Routes/Apart.antt =====
-- The routes are apart.
use synthient_mcp.Prelude.{
  [], ◌∷◌, ◌++◌, ◌≡◌, refl, ◌∙◌, ◌⊎◌, inl, inr, Bool, true, false, Option, none, some, map,
  Bool-cases, Option-cases, if◌then◌else◌, arith,
}
use synthient_mcp.Text.{Text, codes, text_eq, member, starts_with, trim_suffix}
use synthient_mcp.Text.Equality.{text_eq→eq, eq→text_eq, text_eq_comm}
use synthient_mcp.Text.Parts.{starts_with_complete}
use synthient_mcp.Net.Url.{Url}
use synthient_mcp.HttpServer.Scopes.Sets.{distinct}
use synthient_mcp.HttpServer.Routes.{
  metadata_root, at_path, Route, healthz, metrics, metadata, mcp, resource_metadata_url,
  path_or_root, resource_metadata_path, routes,
}

-- What net/url documents of String and Parse: where a text parses, a path from the root at the
-- scheme and the host of its URL is read back as it is printed; the empty text has no path.
pub record IsReadBack (parse : Text → Option Url) (print : Url → Text) : Type 0 where
  pub read :
      (value : Text) (u : Url) (path : Text)
      → parse value ≡ some u
      → starts_with path metadata_root ≡ true
      → (v : Url) × (parse (print (at_path u path)) ≡ some v) × (v.path ≡ path)
  pub nothing : (u : Url) → parse [] ≡ some u → u.path ≡ []

abbrev pub path_of : Text × Route → Text
path_of pair = pair.0

-- A path below the root of the metadata is none that is not.
other_path :
    (path other : Text)
    → starts_with other metadata_root ≡ false
    → starts_with path metadata_root ≡ true
    → (text_eq path other ≡ false) × (text_eq other path ≡ false)
other_path path other h k = elim (Bool-cases (text_eq path other)) [
  | inl hit ↦
      let same : path ≡ other = text_eq→eq path other hit in
      absurd (let below : starts_with other metadata_root ≡ true = rw (← same) k in ground arith)
  | inr miss ↦ (miss, text_eq_comm other path ∙ miss)
]

metadata-apart :
    (metrics_enabled : Bool) (path : Text)
    → starts_with path metadata_root ≡ true
    → distinct (
        map path_of (
          (codes "/healthz", healthz)
          ∷ ((if metrics_enabled then (codes "/metrics", metrics) ∷ [] else [])
              ++ ((path, metadata)
                    ∷ (if text_eq path metadata_root then [] else (metadata_root, metadata) ∷ [])
                  ++ (codes "/mcp", mcp) ∷ []))))
      ≡ true
unfolding starts_with text_eq member
metadata-apart metrics_enabled path h =
    let (h1, h2) = other_path path (codes "/healthz") refl h in
    let (m1, m2) = other_path path (codes "/metrics") refl h in
    let (e1, e2) = other_path path (codes "/mcp") refl h in
    elim (Bool-cases (text_eq path metadata_root)) [
      | inl root ↦ elim (Bool-cases (metrics_enabled)) [
        | inl on ↦ rw (root, on, h1, m1, e2) refl
        | inr off ↦ rw (root, off, h1, e2) refl
      ]
      | inr deeper ↦
          let back = text_eq_comm metadata_root path ∙ deeper in
          elim (Bool-cases (metrics_enabled)) [
            | inl on ↦ rw (deeper, on, h1, m1, e2, back) refl
            | inr off ↦ rw (deeper, off, h1, e2, back) refl
          ]
    ]

module _ (parse : Text → Option Url) (print : Url → Text)
    (documented : IsReadBack parse print) where
  read_root :
      (o : Option Url)
      → ((u : Url) → o ≡ some u → (u.path ≡ []) ⊎ (starts_with u.path metadata_root ≡ true))
      → starts_with (path_or_root parse print o) metadata_root ≡ true
  unfolding starts_with
  read_root none h = refl
  read_root (some u) h = elim (Bool-cases (text_eq u.path [])) [
    | inl empty ↦ rw empty refl
    | inr full ↦ elim (h u refl) [
      | inl nothing ↦ absurd (ground (arith, eq→text_eq u.path [] nothing))
      | inr below ↦ rw full below
    ]
  ]

  metadata_path_root :
      (resource : Text)
      → starts_with (resource_metadata_path parse print resource) metadata_root ≡ true
  unfolding resource_metadata_path resource_metadata_url
  metadata_path_root resource = elim (Option-cases (parse resource)) [
    | inl bad ↦ rw bad (read_root (parse []) (λ u e. inl (documented.nothing u e)))
    | inr (u, good) ↦
        let path = metadata_root ++ trim_suffix (codes "/") u.path in
        let below = starts_with_complete metadata_root (trim_suffix (codes "/") u.path) in
        let (v, back, same) = documented.read resource u path good below in
        rw good (
          read_root (parse (print (at_path u path)))
            (λ w e. let there : v ≡ w = ground arith in inr (rw (← there) (rw same below))))
  ]

  -- Whatever the configuration, where net/url reads back the URLs that it prints for a path at the
  -- scheme and the host of a URL it has parsed, no path is registered twice: the metadata of the resource never stand in the place of the endpoint, the health check,
  -- the metrics or themselves.
  pub routes-distinct :
      (metrics_enabled oauth : Bool) (resource : Text)
      → distinct (map path_of (routes parse print metrics_enabled oauth resource)) ≡ true
  unfolding routes
  routes-distinct true false resource = unfold text_eq member in refl
  routes-distinct false false resource = unfold text_eq member in refl
  routes-distinct metrics_enabled true resource =
      metadata-apart metrics_enabled (resource_metadata_path parse print resource)
        (metadata_path_root resource)
