-- ===== src/OpenEnclave/Extract.antt =====
-- `extract_sgx_attestation` of include/ravl/oe_impl.h, for evidence without a plugin header: the
-- flag `with_plugin_header` is always false.
use ravl.Prelude.{
  ℕ, ◌+◌, ◌≡◌, ◌≤◌, [], ◌++◌, Bytes, length, take, drop, ltb, arith, take-append-drop, length-take,
  append-nil, if◌then◌else◌,
}
use mathlib.Core.Path.{subst}
use ravl.Result.{Result, ok, throw_if, bind_returned, ok-injective, ◌>>=◌, ◌>>◌}
use ravl.Sgx.Consume.{is_empty}
use ravl.Sgx.Layout.{quote_size, number_at}
use ravl.Sgx.Verify.{Evidence}
use ravl.OpenEnclave.Endorsements.{extract_collateral}

-- The bytes behind the quote and its signature are the custom claims.
unfoldable pub split_quote : Bytes → ℕ → Bytes × Bytes
split_quote evidence quote_and_sig_len =
    if ltb quote_and_sig_len (length evidence)
    then (take quote_and_sig_len evidence, drop quote_and_sig_len evidence)
    else (evidence, [])

unfoldable pub extract_endorsements : Bytes → Result Bytes
extract_endorsements endorsements =
    if is_empty endorsements then ok [] else extract_collateral endorsements

-- The SGX attestation, and the custom claims.
unfoldable pub extract_sgx_attestation : Evidence → Result (Evidence × Bytes)
extract_sgx_attestation a = do
  throw_if (is_empty a.evidence) "No evidence to verify"
  throw_if (ltb (length a.evidence) quote_size)
      "Unknown evidence format: too small to contain SGX quote"
  signature_len ← number_at a.evidence 432 4
  let (squote, claims) = split_quote a.evidence (quote_size + signature_len)
  scollateral ← extract_endorsements a.endorsements
  ok (record { evidence = squote; endorsements = scollateral }, claims)

-- What is extracted: the quote and the claims are the evidence, in this order, the quote has its
-- whole header, the claims start where its signature ends, and the endorsements are extracted.
pub record IsSplit (a sgx : Evidence) (claims : Bytes) : Type 0 where
  pub whole : sgx.evidence ++ claims ≡ a.evidence
  pub header : quote_size ≤ length sgx.evidence
  pub signature_len : ℕ
  pub read : number_at a.evidence 432 4 ≡ ok signature_len
  pub end : length sgx.evidence ≤ quote_size + signature_len
  pub endorsements : extract_endorsements a.endorsements ≡ ok sgx.endorsements

split_quote_whole :
    (evidence : Bytes) (n : ℕ) → (split_quote evidence n).0 ++ (split_quote evidence n).1 ≡ evidence
unfolding split_quote
split_quote_whole evidence n = ground (arith, take-append-drop n evidence, append-nil evidence)

split_quote_bounds :
    (evidence : Bytes) (n m : ℕ)
    → m ≤ length evidence
    → m ≤ n
    → (m ≤ length (split_quote evidence n).0) × (length (split_quote evidence n).0 ≤ n)
unfolding split_quote
split_quote_bounds evidence n m h k = ground (arith, length-take n evidence)

-- Evidence from which an SGX attestation is extracted is split without a loss: the quote and the
-- custom claims make it up, in this order, the quote has at least its header and at most the
-- signature that its header announces, and the collateral is what the endorsements are made to.
pub extract_sgx_attestation-IsSplit :
    (a sgx : Evidence) (claims : Bytes)
    → extract_sgx_attestation a ≡ ok (sgx, claims)
    → IsSplit a sgx claims
unfolding extract_sgx_attestation
extract_sgx_attestation-IsSplit a sgx claims e =
    let (_, e₁, _) = bind_returned (throw_if (is_empty a.evidence) _) _ e in
    let (_, e₂, f₂) = bind_returned (throw_if (ltb (length a.evidence) quote_size) _) _ e₁ in
    let (n, e₃, f₃) = bind_returned (number_at a.evidence 432 4) _ e₂ in
    let (out, e₄, f₄) = bind_returned (extract_endorsements a.endorsements) _ e₃ in
    let long : quote_size ≤ length a.evidence = ground (arith, f₂) in
    let (low, high) =
      split_quote_bounds a.evidence (quote_size + n) quote_size long (omega arith) in
    subst (λ (r : Evidence × Bytes). IsSplit a r.0 r.1) (ok-injective _ _ e₄)
      (record {
        whole = split_quote_whole a.evidence (quote_size + n);
        header = low;
        signature_len = n;
        read = f₃;
        end = high;
        endorsements = f₄;
      })
