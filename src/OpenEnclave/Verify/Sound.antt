-- ===== src/OpenEnclave/Verify/Sound.antt =====
-- What the verification of an Open Enclave attestation amounts to, and what it does not check.
use ravl.Prelude.{ℕ, ◌≡◌, refl, sym, ap, ◌∙◌, false, List, [], Option, some, Bytes, arith}
use ravl.Result.{Result, ok, err, bind_returned, ok-injective, ◌>>=◌}
use ravl.Options.{Options}
use ravl.Http.Message.{HttpResponses}
use ravl.Crypto.{OpenSsl}
use ravl.Json.{JsonLibrary}
use ravl.Sgx.Consume.{is_empty}
use ravl.Sgx.Verify.{Evidence}
use ravl.Sgx.Verify
use ravl.Sgx.Verify.Sound.{IsGenuine, verify-IsGenuine}
use ravl.OpenEnclave.Extract.{extract_sgx_attestation, IsSplit, extract_sgx_attestation-IsSplit}
use ravl.OpenEnclave.CustomClaims.{extract_custom_claims}
use ravl.OpenEnclave.Verify.{
  OeAttestation, OeClaims, new_attestation, extract, prepare_endorsements, ensure_extracted, verify,
}

module _ (crypto : OpenSsl) (take_pem : Bytes → Result (Bytes × Bytes)) where
  module _ (json : JsonLibrary) (parse_time_point : Bytes → Result ℕ) where
    -- The verification as a function of what was extracted.
    unfoldable pub claims_of : Options → Option HttpResponses → Evidence × Bytes → Result OeClaims
    claims_of options responses (sgx, cc) = do
      claims ← Verify.verify crypto take_pem json parse_time_point sgx options responses
      custom_claims ← extract_custom_claims cc []
      ok (record { sgx_claims = claims; custom_claims = custom_claims })

    verify-claims_of :
        (a : OeAttestation) (sgx : Evidence) (options : Options) (responses : Option HttpResponses)
        → a.sgx_attestation ≡ some sgx
        → (verify crypto take_pem json parse_time_point options responses a).0
          ≡ claims_of options responses (sgx, a.custom_claims)
    unfolding verify ensure_extracted claims_of
    verify-claims_of a sgx options responses e = ground (arith, e)

    -- A new attestation with endorsements: `verify` gives what the extracted attestation does.
    pub verify_fresh :
        (a : Evidence) (options : Options) (responses : Option HttpResponses)
        → is_empty a.endorsements ≡ false
        → (verify crypto take_pem json parse_time_point options responses (new_attestation a)).0
          ≡ (extract_sgx_attestation a >>= claims_of options responses)
    unfolding verify ensure_extracted extract claims_of
    verify_fresh a options responses h = ground (arith, h)

    prepared :
        (vformat : Bytes → List Bytes → Result Bytes) (a : Evidence) (prepare_options : Options)
        (options : Options) (responses : Option HttpResponses)
        → is_empty a.endorsements ≡ false
        → (r : Result (Evidence × Bytes)) → extract_sgx_attestation a ≡ r
        → (verify crypto take_pem json parse_time_point options responses
            (prepare_endorsements crypto take_pem vformat prepare_options (new_attestation a)).1).0
          ≡ (r >>= claims_of options responses)
    unfolding prepare_endorsements extract
    prepared vformat a p options responses h (ok (sgx, cc)) e =
        let after = (prepare_endorsements crypto take_pem vformat p (new_attestation a)).1 in
        ground (arith, e, verify-claims_of after sgx options responses)
    prepared vformat a p options responses h (err x) e =
        ground (arith, e, verify_fresh a options responses h)
    prepared vformat a p options responses h Result.undefined e =
        ground (arith, e, verify_fresh a options responses h)

    -- With endorsements of its own, an attestation is verified alike before and after
    -- `prepare_endorsements`, with any options in either call, and whatever the latter returns or
    -- throws.
    pub verify-prepare_endorsements :
        (vformat : Bytes → List Bytes → Result Bytes) (a : Evidence) (prepare_options : Options)
        (options : Options) (responses : Option HttpResponses)
        → is_empty a.endorsements ≡ false
        → (verify crypto take_pem json parse_time_point options responses
            (prepare_endorsements crypto take_pem vformat prepare_options (new_attestation a)).1).0
          ≡ (verify crypto take_pem json parse_time_point options responses (new_attestation a)).0
    verify-prepare_endorsements vformat a p options responses h =
        prepared vformat a p options responses h (extract_sgx_attestation a) refl
        ∙ sym (verify_fresh a options responses h)

    -- What was accepted: an SGX attestation that was split off.
    pub record IsAccepted (a : Evidence) (options : Options) (claims : OeClaims) : Type 0 where
      pub sgx : Evidence
      pub custom : Bytes
      pub split : IsSplit a sgx custom
      pub store : crypto.Store
      pub genuine : IsGenuine crypto take_pem sgx.evidence options store options.partial
      pub claimed : extract_custom_claims custom [] ≡ ok claims.custom_claims

    -- An attestation with endorsements whose `verify` returns claims: its evidence is a quote that
    -- the SGX attestation has accepted as genuine, with the custom claims behind it.
    pub verify-IsAccepted :
        (a : Evidence) (options : Options) (responses : Option HttpResponses) (claims : OeClaims)
        → is_empty a.endorsements ≡ false
        → (verify crypto take_pem json parse_time_point options responses (new_attestation a)).0
          ≡ ok claims
        → IsAccepted a options claims
    unfolding claims_of
    verify-IsAccepted a options responses claims h e =
        let ((sgx, cc), e₁, f₁) =
          bind_returned (extract_sgx_attestation a) _
            (sym (verify_fresh a options responses h) ∙ e) in
        let (c, e₂, f₂) =
          bind_returned (Verify.verify crypto take_pem json parse_time_point sgx options responses)
            _ e₁ in
        let (m, e₃, f₃) = bind_returned (extract_custom_claims cc []) _ e₂ in
        let (store, genuine) =
          verify-IsGenuine crypto take_pem json parse_time_point sgx options responses c f₂ in
        record {
          sgx = sgx;
          custom = cc;
          split = extract_sgx_attestation-IsSplit a sgx cc f₁;
          store = store;
          genuine = genuine;
          claimed = f₃ ∙ ap (λ (o : OeClaims). ok o.custom_claims) (ok-injective _ _ e₃);
        }
