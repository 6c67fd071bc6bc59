-- ===== src/OpenEnclave/Verify/Unbound.antt =====
-- The custom claims of an Open Enclave attestation are not bound to its quote.
use ravl.Prelude.{
  ℕ, ◌+◌, ◌≤◌, ◌≡◌, refl, sym, ap, ◌∙◌, false, [], ◌∷◌, ◌++◌, Option, Bytes, length, arith,
  take-length, drop-length, length-append, append-nil,
}
use ravl.Result.{Result, ok, bind_returned, ok-injective, ◌>>=◌}
use ravl.Options.{Options}
use ravl.Http.Message.{Headers, HttpResponses}
use ravl.Crypto.{OpenSsl}
use ravl.Json.{JsonLibrary}
use ravl.Sgx.Consume.{is_empty}
use ravl.Sgx.Layout.Parts.{number_at-append, is_empty-false}
use ravl.Sgx.Layout.{quote_size, number_at}
use ravl.Sgx.Verify.{Evidence}
use ravl.Sgx.Verify
use ravl.OpenEnclave.Extract.{split_quote, extract_endorsements, extract_sgx_attestation}
use ravl.OpenEnclave.CustomClaims.{extract_custom_claims}
use ravl.OpenEnclave.Verify.{OeClaims, new_attestation, verify}
use ravl.OpenEnclave.Verify.Sound.{claims_of, verify_fresh}

split_quote-append :
    (quote claims : Bytes) → split_quote (quote ++ claims) (length quote) ≡ (quote, claims)
unfolding split_quote
split_quote-append quote [] = ground (arith, append-nil quote)
split_quote-append quote (b ∷ claims) = ground (
  arith,
  length-append quote (b ∷ claims),
  take-length quote (b ∷ claims),
  drop-length quote (b ∷ claims),
)

-- A quote with its whole signature, and claims behind it.
extract-append :
    (quote claims endorsements : Bytes) (n : ℕ)
    → length quote ≡ quote_size + n
    → number_at quote 432 4 ≡ ok n
    → extract_sgx_attestation (record { evidence = quote ++ claims; endorsements = endorsements })
      ≡ (extract_endorsements endorsements
          >>= (λ col. ok (record { evidence = quote; endorsements = col }, claims)))
unfolding extract_sgx_attestation
extract-append quote claims endorsements n e f =
    let long : quote_size ≤ length quote = omega (arith, e) in
    ground (
      arith,
      e,
      length-append quote claims,
      is_empty-false (quote ++ claims) (omega (arith, long, length-append quote claims)),
      number_at-append quote claims 432 4 (omega (arith, long)) ∙ f,
      ap (λ m. split_quote (quote ++ claims) m) (sym e) ∙ split_quote-append quote claims,
    )

module _ (crypto : OpenSsl) (take_pem : Bytes → Result (Bytes × Bytes)) where
  module _ (json : JsonLibrary) (parse_time_point : Bytes → Result ℕ) where
    bind_ok :
        {A B C : Type 0} (r : Result A) (f : A → B) (g : B → Result C)
        → ((r >>= (λ a. ok (f a))) >>= g) ≡ (r >>= (λ a. g (f a)))
    bind_ok (ok a) f g = refl
    bind_ok (Result.err e) f g = refl
    bind_ok Result.undefined f g = refl

    verify-append :
        (quote claims endorsements : Bytes) (n : ℕ) (options : Options)
        (responses : Option HttpResponses)
        → length quote ≡ quote_size + n
        → number_at quote 432 4 ≡ ok n
        → is_empty endorsements ≡ false
        → (verify crypto take_pem json parse_time_point options responses (
            new_attestation (record { evidence = quote ++ claims; endorsements = endorsements }))).0
          ≡ (extract_endorsements endorsements >>= (λ col.
              claims_of crypto take_pem json parse_time_point options responses
                (record { evidence = quote; endorsements = col }, claims)))
    verify-append quote claims endorsements n options responses e f h =
        verify_fresh crypto take_pem json parse_time_point _ options responses h
        ∙ ap
            (λ (r : Result (Evidence × Bytes)).
              r >>= claims_of crypto take_pem json parse_time_point options responses)
            (extract-append quote claims endorsements n e f)
        ∙ bind_ok (extract_endorsements endorsements) _ _

    -- Evidence that is accepted is also accepted with any other custom claims in place of its own,
    -- if they can be read: the SGX claims stay as they were, and the custom claims are the new
    -- ones. Nothing relates them to the report data of the quote.
    pub verify_replaced_claims :
        (quote claims claims' endorsements : Bytes) (n : ℕ) (options : Options)
        (responses : Option HttpResponses) (accepted : OeClaims) (m : Headers)
        → length quote ≡ quote_size + n
        → number_at quote 432 4 ≡ ok n
        → is_empty endorsements ≡ false
        → (verify crypto take_pem json parse_time_point options responses (
            new_attestation (record { evidence = quote ++ claims; endorsements = endorsements }))).0
          ≡ ok accepted
        → extract_custom_claims claims' [] ≡ ok m
        → (verify crypto take_pem json parse_time_point options responses (
            new_attestation
              (record { evidence = quote ++ claims'; endorsements = endorsements }))).0
          ≡ ok (record accepted { custom_claims = m })
    unfolding claims_of
    verify_replaced_claims quote claims claims' endorsements n options responses accepted m e f h v
          r =
        let (col, e₁, f₁) =
          bind_returned (extract_endorsements endorsements) _
            (sym (verify-append quote claims endorsements n options responses e f h) ∙ v) in
        let (c, e₂, f₂) =
          bind_returned
            (Verify.verify crypto take_pem json parse_time_point
              (record { evidence = quote; endorsements = col }) options responses)
            _ e₁ in
        let (m₀, e₃, _) = bind_returned (extract_custom_claims claims []) _ e₂ in
        let same : c ≡ accepted.sgx_claims =
          ap (λ (o : OeClaims). o.sgx_claims) (ok-injective _ _ e₃) in
        verify-append quote claims' endorsements n options responses e f h
        ∙ rw (f₁, f₂, r) (ap (λ s. ok (record { sgx_claims = s; custom_claims = m })) same)
