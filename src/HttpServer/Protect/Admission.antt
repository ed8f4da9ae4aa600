-- ===== src/HttpServer/Protect/Admission.antt =====
-- Which requests protectMCP lets through, and what it makes of them.
use synthient_mcp.Prelude.{
  ok, bind_steps, ℕ, ◌≤◌, List, [], ◌∷◌, ◌≡◌, ◌≢◌, ◌↔◌, refl, subst, true, false, length,
  if◌then◌else◌, arith, inl, inr, Bool-cases,
}
use synthient_mcp.Text.{Text, codes, trim_space, contains}
use synthient_mcp.Text.Equality.{text_eq→eq, eq→text_eq, ne→text_eq}
use synthient_mcp.Forwarding.{canonical_client_ip}
use synthient_mcp.HttpServer.Protect.{
  Config, Request, allowed_request_host, max_key_length, check_key, take_key, refused_as,
  set_client, protect_mcp,
}

-- A key that may be sent on: one value, not blank, without blanks around it, without a comma, and
-- of at most the length.
pub record IsKey (max_length : ℕ) (keys : List Text) : Type 0 where
  pub key : Text
  pub only : keys ≡ key ∷ []
  pub filled : trim_space key ≢ []
  pub trimmed : key ≡ trim_space key
  pub single : contains key (codes ",") ≡ false
  pub short : length key ≤ max_length

check_key_sound : (n : ℕ) (keys : List Text) → check_key n keys ≡ ok tt → IsKey n keys
unfolding check_key
check_key_sound n [] e = absurd (cc)
check_key_sound n (k ∷ []) e = record {
  key = k;
  only = refl;
  filled = λ blank. ground (arith, eq→text_eq (trim_space k) [] blank);
  trimmed = text_eq→eq k (trim_space k) (ground arith);
  single = ground arith;
  short = ground arith;
}
check_key_sound n (k ∷ l ∷ keys) e = absurd (ground arith)

check_key_complete : (n : ℕ) (keys : List Text) → IsKey n keys → check_key n keys ≡ ok tt
unfolding check_key
check_key_complete n keys k = rw k.only (
    ground (
      arith,
      ne→text_eq (trim_space k.key) [] k.filled,
      eq→text_eq k.key (trim_space k.key) k.trimmed,
      k.single,
      k.short,
    ))

-- The values of X-Forwarded-For that the upstream gets: none, or the address of the client. The
-- header that the caller sent has no part in it.
pub data IsClient (cfg : Config) (r : Request) : List Text → Type 0 where
  hidden : cfg.forward_client_ip ≡ false → IsClient cfg r []
  shown :
      (ip : Text)
      → cfg.forward_client_ip ≡ true
      → canonical_client_ip r.remote_addr [] cfg.trust_proxy_hops cfg.trusted_proxy_cidrs ≡ ok ip
      → IsClient cfg r (ip ∷ [])

-- The request that goes on: the key stands as it came, or is dropped in the mode of OAuth.
pub record IsAdmitted (unicode_lower : Text → Text) (cfg : Config) (r next : Request) : Type 0 where
  pub host : allowed_request_host unicode_lower r.host cfg.allowed_hosts ≡ true
  pub keyed : cfg.oauth ≡ false → IsKey (max_key_length cfg.max_api_key_length) r.api_key
  pub forwarded : List Text
  pub client : IsClient cfg r forwarded
  pub same :
      next ≡ record r { api_key = if cfg.oauth then [] else r.api_key; forwarded_for = forwarded }

take_key_sound :
    (cfg : Config) (r k : Request)
    → take_key cfg r ≡ ok k
    → (k ≡ record r { api_key = if cfg.oauth then [] else r.api_key })
      × (cfg.oauth ≡ false → IsKey (max_key_length cfg.max_api_key_length) r.api_key)
unfolding take_key
take_key_sound cfg r k e = elim (Bool-cases (cfg.oauth)) [
  | inl oauth ↦ (ground arith, λ direct. absurd (ground arith))
  | inr direct ↦
      let (u, good, rest) =
        bind_steps (check_key (max_key_length cfg.max_api_key_length) r.api_key) _
          (rw direct at e) in
      (rw direct (ground arith), λ _. check_key_sound _ _ good)
]

set_client_sound :
    (cfg : Config) (r next : Request)
    → set_client cfg r ≡ ok next
    → (forwarded : List Text) × IsClient cfg r forwarded
      × (next ≡ record r { forwarded_for = forwarded })
unfolding set_client
set_client_sound cfg r next e = elim (Bool-cases (cfg.forward_client_ip)) [
  | inr off ↦ ([], hidden off, ground arith)
  | inl on ↦
      let (ip, found, rest) =
        bind_steps
          (refused_as
            (canonical_client_ip r.remote_addr [] cfg.trust_proxy_hops cfg.trusted_proxy_cidrs))
          _ (rw on at e) in
      (ip ∷ [], shown ip on (ground arith), ground arith)
]

take_key_complete :
    (cfg : Config) (r : Request)
    → (cfg.oauth ≡ false → IsKey (max_key_length cfg.max_api_key_length) r.api_key)
    → take_key cfg r ≡ ok (record r { api_key = if cfg.oauth then [] else r.api_key })
unfolding take_key
take_key_complete cfg r keyed = elim (Bool-cases (cfg.oauth)) [
  | inl oauth ↦ rw oauth refl
  | inr direct ↦ rw (direct, check_key_complete _ r.api_key (keyed direct)) refl
]

set_client_complete :
    (cfg : Config) (r : Request) (forwarded : List Text)
    → IsClient cfg r forwarded
    → set_client cfg r ≡ ok (record r { forwarded_for = forwarded })
unfolding set_client
set_client_complete cfg r _ (hidden off) = rw off refl
set_client_complete cfg r _ (shown ip on found) = rw (on, found) refl

-- A request reaches the next handler exactly if its host is allowed, in the mode of API keys its
-- header X-API-Key is one value that is neither blank nor padded nor too long and has no comma,
-- and, where addresses are forwarded, the client's address is found. What the next handler gets is
-- the request with the key (or, under OAuth, without any) and with no forwarded address but that
-- one; the X-Forwarded-For of the caller is gone.
pub protect_mcp_iff :
    (unicode_lower : Text → Text) (cfg : Config) (r next : Request)
    → (protect_mcp unicode_lower cfg r ≡ ok next) ↔ IsAdmitted unicode_lower cfg r next
unfolding protect_mcp
protect_mcp_iff u cfg r next = (forward, backward)
  where
    kept_request : Request
    kept_request = record r { api_key = if cfg.oauth then [] else r.api_key }

    of_kept : {values : List Text} → IsClient cfg kept_request values → IsClient cfg r values
    of_kept (hidden off) = hidden off
    of_kept (shown ip on found) = shown ip on found

    to_kept : {values : List Text} → IsClient cfg r values → IsClient cfg kept_request values
    to_kept (hidden off) = hidden off
    to_kept (shown ip on found) = shown ip on found

    forward : protect_mcp u cfg r ≡ ok next → IsAdmitted u cfg r next
    forward e = elim (Bool-cases (allowed_request_host u r.host cfg.allowed_hosts)) [
      | inr wrong ↦ absurd (ground arith)
      | inl right ↦
          let (k, keyed, rest) = bind_steps (take_key cfg r) _ (rw right at e) in
          let (kept, good) = take_key_sound cfg r k keyed in
          let (forwarded, client, same) = set_client_sound cfg k next rest in
          record {
            host = right;
            keyed = good;
            forwarded = forwarded;
            client = of_kept (subst (λ q. IsClient cfg q forwarded) kept client);
            same = rw kept at same;
          }
    ]

    backward : IsAdmitted u cfg r next → protect_mcp u cfg r ≡ ok next
    backward a =
        rw (a.host, take_key_complete cfg r a.keyed, a.same)
          (set_client_complete cfg _ a.forwarded (to_kept a.client))
