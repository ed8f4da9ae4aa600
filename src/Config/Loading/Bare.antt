-- ===== src/Config/Loading/Bare.antt =====
-- A base URL that is accepted although no request can be made below it.
use synthient_mcp.Prelude.{
  ok, err, bind_steps, ok_injective, subst, List, [], ◌≡◌, refl, ◌∙◌, ◌⊎◌, inl, inr, true, Option,
  some,
}
use synthient_mcp.Text.{Text, codes, ends_with, starts_with}
use synthient_mcp.Net.Url.{Url}
use synthient_mcp.Config.Urls.{validate_base_url, with_slash}
use synthient_mcp.Config.Urls.Secure.{validate_base_url-IsSecure}
use synthient_mcp.Config.Loading.{base_url_of}
use synthient_mcp.Synthient.Request
use synthient_mcp.Synthient.Request.{Client, Target, HttpRequest, resolve, prepare, new_request}
use synthient_mcp.Synthient.Request.Unrooted.{IsBare, resolve_bare}

slash_path : (u : Url) → (u.path ≡ []) ⊎ (u.path ≡ codes "/") → (with_slash u).path ≡ codes "/"
unfolding with_slash
slash_path u (inl empty) = rw empty (unfold ends_with starts_with in refl)
slash_path u (inr slash) = rw slash (unfold ends_with starts_with in refl)

base_url_of-IsBare :
    (u base : Url)
    → (u.path ≡ []) ⊎ (u.path ≡ codes "/")
    → base_url_of (some u) ≡ ok base
    → IsBare base
unfolding base_url_of
base_url_of-IsBare u base bare e =
    let (t, valid, last) = bind_steps (validate_base_url u) _ e in
    let (secure, no_raw) = validate_base_url-IsSecure u valid in
    subst IsBare (ok_injective (ok (with_slash u)) refl last)
      (record { no_raw_path = same_raw u ∙ no_raw; spelled = slash_path u bare })
  where
    same_raw : (u : Url) → (with_slash u).raw_path ≡ u.raw_path
    same_raw u = unfold with_slash in refl

-- The configuration accepts a base URL of a host alone, such as `https://host` or `https://host/`,
-- and then every request fails before it is sent, whatever its path and query: the path of the
-- endpoint is refused as one that escaped the base, or a segment is empty.
pub prepare_bare :
    (renew : Url → Option Url) (marshal : List Text → Option Text) (client : Client)
    (target : Target) (u base : Url)
    → (u.path ≡ []) ⊎ (u.path ≡ codes "/")
    → base_url_of (some u) ≡ ok base
    → client.base_url ≡ some base
    → client.has_http_client ≡ true
    → (prepare renew marshal client target ≡ err Request.escaped_endpoint)
      ⊎ (prepare renew marshal client target ≡ err Request.empty_segment)
unfolding prepare
prepare_bare renew marshal client target u base bare loaded at connected =
    elim (resolve_bare base target.path (base_url_of-IsBare u base bare loaded)) [
      | inl escaped ↦ inl (rw (at, connected, escaped) refl)
      | inr empty ↦ inr (rw (at, connected, empty) refl)
    ]
