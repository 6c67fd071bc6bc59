-- ===== src/Sgx/Quote/Layout.antt =====
-- The layout of a quote with its signature data, and that the parsers find its parts.
use ravl.Prelude.{
  ℕ, ◌+◌, ◌/◌, ◌%◌, ◌^◌, ◌<◌, ◌≤◌, ◌≡◌, refl, sym, ap, ◌∙◌, [], ◌∷◌, ◌++◌, Bytes, arith, length,
  length-append, append_assoc,
}
use ravl.Result.{Result, ok, err, runtime_error, ◌>>=◌}
use ravl.Sgx.Layout.{
  signature_data_size, report_body_size, number_at, bytes_at, little_endian, cell, verify_within,
  verify_within_ok,
}
use ravl.Sgx.Layout.Parts.{bytes_between, number_between, little_endian-cell, number_at-append}
use ravl.Sgx.Quote.{
  SignatureData, parse_quote, parse_signature_data, authentication, certification, to_pem,
}
use ravl.Sgx.Quote.Bounds.{fixed_parts_ok}

-- A `uint16_t`.
abbrev pub half : ℕ → Bytes
half n = (n % 256) ∷ (n / 256 % 256) ∷ []

-- What is signed, the signature data up to the authentication data, and these.
pub record Parts : Type 0 where
  pub head : Bytes
  pub fixed : Bytes
  pub auth_data : Bytes

-- Version 3 with an ECDSA-P256 signature, in sizes that the structures have.
pub record IsQuote (p : Parts) : Type 0 where
  pub head : length p.head ≡ 432
  pub version : number_at p.head 0 2 ≡ ok 3
  pub sign_type : number_at p.head 2 2 ≡ ok 2
  pub fixed : length p.fixed ≡ signature_data_size
  pub some_auth_data : 0 < length p.auth_data
  pub short_auth_data : length p.auth_data < 2 ^ 16

-- Up to the size of the certification data; `n` is the signature's length.
abbrev pub front : Parts → ℕ → Bytes
front p n =
    p.head ++ (cell n ++ (p.fixed ++ (half (length p.auth_data) ++ (p.auth_data ++ (5 ∷ 0 ∷ [])))))

abbrev pub layout : Parts → ℕ → Bytes → Bytes → Bytes
layout p n cert rest = front p n ++ (cell (length cert) ++ (cert ++ rest))

-- The offset of the certification data's header.
abbrev pub header_of : Parts → ℕ
header_of p = 1014 + length p.auth_data

-- The length of the signature with a certificate chain.
abbrev pub signature_len : Parts → Bytes → ℕ
signature_len p cert = 584 + length p.auth_data + length cert

-- The parsers, on bytes that have the right numbers in the right places.
parse_quote_lem :
    (b : Bytes) (n : ℕ)
    → number_at b 432 4 ≡ ok n
    → 436 + n ≤ length b
    → number_at b 0 2 ≡ ok 3
    → number_at b 2 2 ≡ ok 2
    → parse_quote b ≡ ok (record { offset = 0; size = 432 })
unfolding parse_quote
parse_quote_lem b n e₁ long e₂ e₃ = ground (
  arith,
  e₁,
  e₂,
  e₃,
  long,
  verify_within_ok (record { offset = 0; size = 432 }) b (omega arith) (omega (arith, long)),
)

-- What is found in a quote with authentication data of `size` bytes.
abbrev pub found : ℕ → Bytes → SignatureData
found size certification_data = record {
  quote_signature = record { offset = 436; size = 64 };
  public_key = record { offset = 500; size = 64 };
  report = record { offset = 564; size = report_body_size };
  report_signature = record { offset = 948; size = 64 };
  report_data = record { offset = 884; size = 64 };
  auth_data = record { offset = 1014; size = size };
  cd_raw = 1014 + size;
  certification_data = certification_data;
}

authentication_lem :
    (b : Bytes) (size : ℕ)
    → number_at b 1012 2 ≡ ok size
    → 0 < size
    → 1014 + size ≤ length b
    → authentication 436 b ≡ ok (record { offset = 1014; size = size })
unfolding authentication
authentication_lem b size e some long =
    ground (arith, e, some, verify_within_ok (record { offset = 1014; size = size }) b some long)

certification_lem :
    (b : Bytes) (cd_raw size : ℕ)
    → number_at b (cd_raw + 2) 4 ≡ ok size
    → number_at b cd_raw 2 ≡ ok 5
    → 0 < size
    → cd_raw + 6 + size ≤ length b
    → certification cd_raw b ≡ ok (record { offset = cd_raw + 6; size = size })
unfolding certification
certification_lem b cd_raw size e₁ e₂ some long = ground (
  arith,
  e₁,
  e₂,
  some,
  verify_within_ok (record { offset = cd_raw + 6; size = size }) b some long,
)

parse_signature_data_lem :
    (take_pem : Bytes → Result (Bytes × Bytes)) (b : Bytes) (size : ℕ) (cert : Bytes)
    → 1012 ≤ length b
    → authentication 436 b ≡ ok (record { offset = 1014; size = size })
    → certification (1014 + size) b ≡ ok (record { offset = 1014 + size + 6; size = length cert })
    → bytes_at b (1014 + size + 6) (length cert) ≡ ok cert
    → parse_signature_data take_pem (record { offset = 0; size = 432 }) b
      ≡ (to_pem take_pem cert >>= (λ c. ok (found size c)))
unfolding parse_signature_data
parse_signature_data_lem take_pem b size cert long e₁ e₂ e₃ =
    ground (arith, fixed_parts_ok 436 b long, e₁, e₂, e₃)

-- Evidence that ends within the certification data.
pub parse_signature_data_short :
    (take_pem : Bytes → Result (Bytes × Bytes)) (b : Bytes) (size cert_size : ℕ)
    → 1020 + size ≤ length b
    → number_at b 1012 2 ≡ ok size
    → number_at b (1014 + size + 2) 4 ≡ ok cert_size
    → 0 < size
    → 0 < cert_size
    → length b < 1020 + size + cert_size
    → parse_signature_data take_pem (record { offset = 0; size = 432 }) b
      ≡ err (runtime_error "invalid pointer")
unfolding parse_signature_data certification verify_within
parse_signature_data_short take_pem b size cert_size long e₁ e₂ some some_cert short = ground (
  arith,
  fixed_parts_ok 436 b (omega (arith, long)),
  authentication_lem b size e₁ some (omega (arith, long)),
  e₂,
  some_cert,
  short,
)

module _ (p : Parts) (is : IsQuote p) where
  pub length-front : (n : ℕ) → length (front p n) ≡ header_of p + 2
  length-front n = simp length-append (omega (arith, is.head, is.fixed))

  pub length-layout :
      (n : ℕ) (cert rest : Bytes)
      → length (layout p n cert rest) ≡ header_of p + 6 + length cert + length rest
  length-layout n cert rest = omega (
    arith,
    length-append (front p n) (cell (length cert) ++ (cert ++ rest)),
    length-front n,
    length-append cert rest,
  )

  module _ (n : ℕ) (cert rest : Bytes) (fits : n < 2 ^ 32) where
    abbrev whole : Bytes
    whole = layout p n cert rest

    pub signature_len_at : number_at whole 432 4 ≡ ok n
    signature_len_at =
        number_between whole p.head (cell n)
          (p.fixed
            ++ (half (length p.auth_data)
                ++ (p.auth_data ++ ((5 ∷ 0 ∷ []) ++ (cell (length cert) ++ (cert ++ rest))))))
          (simp append_assoc) 432 4 (sym is.head) refl
        ∙ ap ok (little_endian-cell n fits)

    in_head :
        (o size v : ℕ)
        → o + size ≤ 432
        → number_at p.head o size ≡ ok v
        → number_at whole o size ≡ ok v
    in_head o size v h e =
        ap (λ b. number_at b o size) (simp append_assoc)
        ∙ number_at-append p.head
            (cell n
              ++ (p.fixed
                  ++ (half (length p.auth_data)
                      ++ (p.auth_data
                          ++ ((5 ∷ 0 ∷ []) ++ (cell (length cert) ++ (cert ++ rest)))))))
            o size (omega (arith, h, is.head))
        ∙ e

    pub parse_quote-layout :
        436 + n ≤ length whole → parse_quote whole ≡ ok (record { offset = 0; size = 432 })
    parse_quote-layout long =
        parse_quote_lem whole n signature_len_at long (in_head 0 2 3 (omega arith) is.version)
          (in_head 2 2 2 (omega arith) is.sign_type)

    -- The sizes of the authentication data and of the certification data, and the kind of these.
    abbrev a : ℕ
    a = length p.auth_data

    abbrev tail : Bytes
    tail = cell (length cert) ++ (cert ++ rest)

    length-fixed : length (p.head ++ (cell n ++ p.fixed)) ≡ 1012
    length-fixed = simp length-append (omega (arith, is.head, is.fixed))

    pub auth_size_at : number_at whole 1012 2 ≡ ok a
    auth_size_at =
        let value : little_endian (half a) ≡ a = omega (arith, is.short_auth_data) in
        number_between whole (p.head ++ (cell n ++ p.fixed)) (half a)
          (p.auth_data ++ ((5 ∷ 0 ∷ []) ++ tail)) (simp append_assoc) 1012 2 (sym length-fixed) refl
        ∙ ap ok value

    pub kind_at : number_at whole (1014 + a) 2 ≡ ok 5
    kind_at =
        let pre = (p.head ++ (cell n ++ p.fixed)) ++ (half a ++ p.auth_data) in
        number_between whole pre (5 ∷ 0 ∷ []) tail (simp append_assoc) (1014 + a) 2
          (omega (
            arith,
            length-fixed,
            length-append (p.head ++ (cell n ++ p.fixed)) (half a ++ p.auth_data),
          ))
          refl

    pub cert_size_at : length cert < 2 ^ 32 → number_at whole (1014 + a + 2) 4 ≡ ok (length cert)
    cert_size_at short =
        number_between whole (front p n) (cell (length cert)) (cert ++ rest) refl (1014 + a + 2) 4
          (sym (length-front n)) refl
        ∙ ap ok (little_endian-cell (length cert) short)

    pub parse_signature_data-layout :
        (take_pem : Bytes → Result (Bytes × Bytes))
        → 0 < length cert
        → length cert < 2 ^ 32
        → parse_signature_data take_pem (record { offset = 0; size = 432 }) whole
          ≡ (to_pem take_pem cert >>= (λ c. ok (found a c)))
    parse_signature_data-layout take_pem some short =
        let long = length-layout n cert rest in
        let cert_found : bytes_at whole (1014 + a + 6) (length cert) ≡ ok cert =
          bytes_between whole (front p n ++ cell (length cert)) cert rest (simp append_assoc)
            (1014 + a + 6) (length cert)
            (omega (arith, length-front n, length-append (front p n) (cell (length cert)))) refl in
        parse_signature_data_lem take_pem whole a cert (omega (arith, long))
          (authentication_lem whole a auth_size_at is.some_auth_data (omega (arith, long)))
          (certification_lem whole (1014 + a) (length cert) (cert_size_at short) kind_at some
            (omega (arith, long)))
          cert_found
