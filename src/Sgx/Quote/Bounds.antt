-- ===== src/Sgx/Quote/Bounds.antt =====
-- Bounds of what the quote's parsers hand out, and where they read behind the evidence.
use ravl.Prelude.{
  ℕ, ◌+◌, ◌<◌, ◌≤◌, ◌≡◌, ◌↔◌, ◌≢◌, sym, ap, not, inl, inr, lt-cases, Bytes, arith, length, ◌==◌,
}
use mathlib.Core.Path.{subst}
use ravl.Result.{
  Result, ok, undefined, throw_if, bind_returned, bind_defined, bind_defined_after, ◌>>=◌,
  throw_if_defined, ok_defined, ok-injective,
}
use ravl.Sgx.Layout.{
  Span, quote_size, signature_data_size, report_body_size, bytes_at, number_at, verify_within,
  IsWithin, IsWithin-verify_within, verify_within_ok, verify_within_defined, number_at_defined,
  number_at_undefined,
}
use ravl.Sgx.Quote.{
  SignatureData, parse_quote, parse_signature_data, fixed_parts, authentication, certification,
  to_pem,
}

-- Each span into the evidence ends within it, and so do the certification data with their header, of
-- which the span of this name shows the bytes, or PEM text that is made of them.
pub record AllWithin (take_pem : Bytes → Result (Bytes × Bytes)) (d : SignatureData)
    (evidence : Bytes) : Type 0 where
  pub quote_signature : IsWithin d.quote_signature evidence
  pub public_key : IsWithin d.public_key evidence
  pub report : IsWithin d.report evidence
  pub report_signature : IsWithin d.report_signature evidence
  pub report_data : IsWithin d.report_data evidence
  pub auth_data : IsWithin d.auth_data evidence
  pub header : d.cd_raw + 6 ≤ length evidence
  pub raw : Span
  pub raw_bytes : Bytes
  pub at_raw : certification d.cd_raw evidence ≡ ok raw
  pub raw_within : IsWithin raw evidence
  pub behind_header : raw.offset ≡ d.cd_raw + 6
  pub read : bytes_at evidence raw.offset raw.size ≡ ok raw_bytes
  pub converted : to_pem take_pem raw_bytes ≡ ok d.certification_data

parse_quote_defined :
    (evidence : Bytes) → quote_size ≤ length evidence → parse_quote evidence ≢ undefined
unfolding parse_quote
parse_quote_defined evidence long = bind_defined _ _ (number_at_defined evidence 432 4 long) (λ n.
    bind_defined _ _ (throw_if_defined _ _) (λ _.
      bind_defined _ _ (verify_within_defined _ evidence) (λ _.
        bind_defined _ _ (number_at_defined evidence 0 2 (omega (arith, long))) (λ version.
          bind_defined _ _ (throw_if_defined _ _) (λ _.
            bind_defined _ _ (number_at_defined evidence 2 2 (omega (arith, long)))
              (λ algorithm. bind_defined _ _ (throw_if_defined _ _) (λ _. ok_defined _)))))))

-- `parse_quote` reads behind the evidence exactly if the evidence is shorter than an `sgx_quote_t`:
-- its test of the length reads a field of the quote first.
parse_quote_undefined :
    (evidence : Bytes) → (parse_quote evidence ≡ undefined) ↔ (length evidence < quote_size)
unfolding parse_quote
parse_quote_undefined evidence = (
  λ h. elim (lt-cases (length evidence) quote_size) [
    | inl short ↦ short
    | inr long ↦ absurd (parse_quote_defined evidence long h)
  ],
  λ short. ground (arith, number_at_undefined evidence 432 4 short),
)

fixed_parts_within :
    (s : ℕ) (evidence : Bytes) {u : Unit {0}}
    → fixed_parts s evidence ≡ ok u
    → s + signature_data_size ≤ length evidence
unfolding fixed_parts
fixed_parts_within s evidence e =
    let (_, _, f) =
      bind_returned (verify_within (record { offset = s; size = signature_data_size }) evidence) _
        e in
    IsWithin-verify_within _ evidence f

pub fixed_parts_ok :
    (s : ℕ) (evidence : Bytes)
    → s + signature_data_size ≤ length evidence
    → fixed_parts s evidence ≡ ok tt
unfolding fixed_parts
fixed_parts_ok s evidence long = ground (
  arith,
  verify_within_ok (record { offset = s; size = signature_data_size }) evidence (omega arith) long,
  verify_within_ok (record { offset = s + 128; size = report_body_size }) evidence (omega arith)
      (omega (arith, long)),
  verify_within_ok (record { offset = s + 512; size = 64 }) evidence (omega arith)
      (omega (arith, long)),
  verify_within_ok (record { offset = s; size = 64 }) evidence (omega arith) (omega (arith, long)),
  verify_within_ok (record { offset = s + 64; size = 64 }) evidence (omega arith)
      (omega (arith, long)),
  verify_within_ok (record { offset = s + 448; size = 64 }) evidence (omega arith)
      (omega (arith, long)),
)

authentication-IsWithin :
    (s : ℕ) (evidence : Bytes) (auth : Span)
    → authentication s evidence ≡ ok auth
    → IsWithin auth evidence
unfolding authentication
authentication-IsWithin s evidence auth e =
    let (size, e₁, _) = bind_returned (number_at evidence (s + signature_data_size) 2) _ e in
    let (_, e₂, f) =
      bind_returned
        (verify_within (record { offset = s + signature_data_size + 2; size = size }) evidence) _
        e₁ in
    let within = IsWithin-verify_within _ evidence f in
    let (_, e₃, _) = bind_returned (throw_if (size == 0) "missing authentication data") _ e₂ in
    subst (λ a. IsWithin a evidence) (ok-injective _ auth e₃) within

certification_within :
    (cd_raw : ℕ) (evidence : Bytes) (span : Span)
    → certification cd_raw evidence ≡ ok span
    → (cd_raw + 6 ≤ length evidence) × IsWithin span evidence × (span.offset ≡ cd_raw + 6)
unfolding certification
certification_within cd_raw evidence span e =
    let (size, e₁, f₁) = bind_returned (number_at evidence (cd_raw + 2) 4) _ e in
    let (_, e₂, _) = bind_returned (throw_if (size == 0) "missing certification data") _ e₁ in
    let (_, e₃, f₃) =
      bind_returned (verify_within (record { offset = cd_raw + 6; size = size }) evidence) _ e₂ in
    let (key_type, e₄, _) = bind_returned (number_at evidence cd_raw 2) _ e₃ in
    let (_, e₅, _) =
      bind_returned (throw_if (not (key_type == 5)) "unsupported certification data key type") _
        e₄ in
    let same = ok-injective _ span e₅ in
    let within = IsWithin-verify_within _ evidence f₃ in
    (
      omega (arith, within),
      subst (λ s. IsWithin s evidence) same within,
      sym (ap (λ s. s.offset) same),
    )

-- The certification data as they are read.
abbrev pub raw_certification : ℕ → Bytes → Result Bytes
raw_certification cd_raw evidence =
    certification cd_raw evidence >>= (λ span. bytes_at evidence span.offset span.size)

bytes_within_defined :
    (span : Span) (evidence : Bytes)
    → IsWithin span evidence
    → bytes_at evidence span.offset span.size ≢ undefined
unfolding bytes_at
bytes_within_defined span evidence within = ground (arith, within)

certification_defined :
    (cd_raw : ℕ) (evidence : Bytes)
    → cd_raw + 6 ≤ length evidence
    → certification cd_raw evidence ≢ undefined
unfolding certification
certification_defined cd_raw evidence long =
    bind_defined _ _ (number_at_defined evidence (cd_raw + 2) 4 (omega (arith, long))) (λ size.
      bind_defined _ _ (throw_if_defined _ _) (λ _.
        bind_defined _ _ (verify_within_defined _ evidence) (λ _.
          bind_defined _ _ (number_at_defined evidence cd_raw 2 (omega (arith, long)))
            (λ key_type. bind_defined _ _ (throw_if_defined _ _) (λ _. ok_defined _)))))

raw_certification_defined :
    (cd_raw : ℕ) (evidence : Bytes)
    → cd_raw + 6 ≤ length evidence
    → raw_certification cd_raw evidence ≢ undefined
raw_certification_defined cd_raw evidence long =
    bind_defined_after (certification cd_raw evidence)
      (λ span. bytes_at evidence span.offset span.size) (certification_defined cd_raw evidence long)
      (λ span e. bytes_within_defined span evidence (certification_within cd_raw evidence span e).1)

module _ (take_pem : Bytes → Result (Bytes × Bytes)) where
  -- Signature data that was parsed: every span into the evidence ends within it, and so do the
  -- certification data with their header, whose bytes, converted to PEM if they are in DER, are what
  -- is handed out as certification data. And wherever such a header lies within the evidence, whatever
  -- size it gives, the certification data are not read behind the end: this returns or throws.
  pub parse_signature_data-AllWithin :
      (quote : Span) (evidence : Bytes) (d : SignatureData) (cd_raw : ℕ)
      → parse_signature_data take_pem quote evidence ≡ ok d
      → cd_raw + 6 ≤ length evidence
      → AllWithin take_pem d evidence × (raw_certification cd_raw evidence ≢ undefined)
  unfolding parse_signature_data
  parse_signature_data-AllWithin quote evidence d cd_raw e long =
      let s = quote.offset + quote_size in
      let (_, e₁, f₁) = bind_returned (fixed_parts s evidence) _ e in
      let (auth, e₂, f₂) = bind_returned (authentication s evidence) _ e₁ in
      let (cert, e₃, f₃) =
        bind_returned (certification (s + signature_data_size + 2 + auth.size) evidence) _ e₂ in
      let (raw, e₄, f₄) = bind_returned (bytes_at evidence cert.offset cert.size) _ e₃ in
      let (pem, e₅, f₅) = bind_returned (to_pem take_pem raw) _ e₄ in
      let fixed = fixed_parts_within s evidence f₁ in
      let (header, within, behind) = certification_within _ evidence cert f₃ in
      (
        subst (λ d. AllWithin take_pem d evidence) (ok-injective _ d e₅)
            (record {
              quote_signature = omega (arith, fixed);
              public_key = omega (arith, fixed);
              report = omega (arith, fixed);
              report_signature = omega (arith, fixed);
              report_data = omega (arith, fixed);
              auth_data = authentication-IsWithin s evidence auth f₂;
              header = header;
              raw = cert;
              raw_bytes = raw;
              at_raw = f₃;
              raw_within = within;
              behind_header = behind;
              read = f₄;
              converted = f₅;
            }),
        raw_certification_defined cd_raw evidence long,
      )

  -- Evidence that ends right behind the signature data, or one byte later: the size of the
  -- authentication data is read behind the end.
  parse_signature_data_undefined :
      (evidence : Bytes)
      → 1012 ≤ length evidence
      → length evidence < 1014
      → parse_signature_data take_pem (record { offset = 0; size = 432 }) evidence ≡ undefined
  unfolding parse_signature_data authentication
  parse_signature_data_undefined evidence long short =
      ground (arith, fixed_parts_ok 436 evidence long, number_at_undefined evidence 1012 2 short)
