-- ===== src/Synthient/Response/Contract.antt =====
-- Which answers of the upstream requestQuery accepts, and what it makes of the others.
use synthient_mcp.Prelude.{
  ok, ℕ, zero, suc, ◌≤◌, ◌<◌, [], ◌∷◌, ◌≡◌, ◌↔◌, refl, ap, true, false, not, Option, none, some,
  ltb, length, take, arith, guard_passed,
}
use synthient_mcp.Text.{Text}
use synthient_mcp.Synthient.Json.{Fields}
use synthient_mcp.Synthient.Sanitize.{sanitize_object, sanitize_fields}
use synthient_mcp.Synthient.Response.{
  max_response_bytes, Answer, is_success, require_object, fails_to_read, read_limited,
  decoded_answer, take_answer,
}

take_all : (n : ℕ) (s : Text) → length s ≤ n → take n s ≡ s
take_all zero [] h = refl
take_all zero (c ∷ s) h = absurd (omega (arith, h))
take_all (suc n) [] h = refl
take_all (suc n) (c ∷ s) h = ap (λ t. c ∷ t) (take_all n s (omega (arith, h)))

length-take_le : (n : ℕ) (s : Text) → length (take (suc n) s) ≤ n → length s ≤ n
length-take_le n [] h = omega arith
length-take_le zero (c ∷ s) h = absurd (omega (arith, h))
length-take_le (suc n) (c ∷ s) h = omega (arith, length-take_le n s (omega (arith, h)))

le_of_ltb : (m n : ℕ) → ltb m n ≡ false → n ≤ m
le_of_ltb m n h = ground arith

reads_whole :
    (a : Answer) → length a.body ≤ max_response_bytes → fails_to_read a ≡ false → a.broken ≡ false
reads_whole a small h = ground arith

success_bounds : (status : ℕ) → not (is_success status) ≡ false → (200 ≤ status) × (status < 300)
success_bounds status h = ground arith

bounds_success : (status : ℕ) → (200 ≤ status) × (status < 300) → is_success status ≡ true
bounds_success status h = ground arith

whole_reads : (a : Answer) → a.broken ≡ false → fails_to_read a ≡ false
whole_reads a h = rw h refl

le→ltb : (m n : ℕ) → n ≤ m → ltb m n ≡ false
le→ltb m n h = ground arith

module _ (decode : Text → Option Fields) (api_key : Text) where
  -- An answer that is read to its end, is within the limit, has a status of success, and holds an
  -- object, whose sanitised form is the result.
  pub record IsAccepted (a : Answer) (fs : Fields) : Type 0 where
    pub whole : a.broken ≡ false
    pub small : length a.body ≤ max_response_bytes
    pub success : (200 ≤ a.status) × (a.status < 300)
    pub object : Fields
    pub decoded : decode a.body ≡ some object
    pub cleaned : fs ≡ sanitize_fields api_key object

  require_object_sound :
      (o : Option Fields) (fs : Fields)
      → require_object (sanitize_object api_key o) ≡ ok fs
      → (object : Fields) × (o ≡ some object) × (fs ≡ sanitize_fields api_key object)
  unfolding sanitize_object
  require_object_sound none fs e = absurd (cc)
  require_object_sound (some object) fs e = (object, refl, ground arith)

-- For every decoder and key, an answer of the upstream is accepted exactly if its body is read to
-- the end and has at most 16 MiB, its status is 200 to 299, and the body decodes to an object; the
-- result is that object, sanitised. Every other answer is an error.
pub take_answer_iff :
    (decode : Text → Option Fields) (api_key : Text) (a : Answer) (fs : Fields)
    → (take_answer decode api_key (some a) ≡ ok fs) ↔ IsAccepted decode api_key a fs
unfolding take_answer decoded_answer read_limited
take_answer_iff decode api_key a fs = (forward, backward)
  where
    forward : take_answer decode api_key (some a) ≡ ok fs → IsAccepted decode api_key a fs
    forward e =
        let (reads, e1) = guard_passed (fails_to_read a) _ _ e in
        let (fits, e2) =
          guard_passed (ltb max_response_bytes (length (take (suc max_response_bytes) a.body))) _ _
            e1 in
        let (right, e3) = guard_passed (not (is_success a.status)) _ _ e2 in
        let small = length-take_le max_response_bytes a.body (le_of_ltb _ _ fits) in
        let (object, decoded, cleaned) =
          require_object_sound decode api_key (decode (take (suc max_response_bytes) a.body)) fs
            e3 in
        record {
          whole = reads_whole a small reads;
          small = small;
          success = success_bounds a.status right;
          object = object;
          decoded = rw (take_all (suc max_response_bytes) a.body (omega (arith, small))) at decoded;
          cleaned = cleaned;
        }

    backward : IsAccepted decode api_key a fs → take_answer decode api_key (some a) ≡ ok fs
    backward h =
        rw
          (
            whole_reads a h.whole,
            take_all (suc max_response_bytes) a.body (omega (arith, h.small)),
            le→ltb max_response_bytes (length a.body) h.small,
            bounds_success a.status h.success,
            h.decoded,
            h.cleaned,
          )
          (unfold sanitize_object in refl)
