-- ===== src/Sgx/Quote.antt =====
-- `parse_quote` and the constructor of `SignatureData` of include/ravl/sgx_impl.h.
pub mod Bounds
pub mod Pem
pub mod Layout
use ravl.Prelude.{
  ℕ, zero, suc, ◌+◌, Bool, ◌&&◌, [], ◌∷◌, ◌++◌, Bytes, codes, bytes_eq, not, length, take, ltb, leb,
  ◌==◌, if◌then◌else◌,
}
use ravl.Result.{Result, ok, undefined, throw_if, ◌>>=◌, ◌>>◌}
use ravl.Sgx.Layout.{
  Span, quote_size, signature_data_size, report_body_size, bytes_at, number_at, verify_within,
}

-- Numbers are read where the code reads them, the signature's length before any check.
unfoldable pub parse_quote : Bytes → Result Span
parse_quote evidence = do
  signature_len ← number_at evidence 432 4
  throw_if (ltb (length evidence) (quote_size + signature_len))
      "Unknown evidence format: too small to contain an sgx_quote_t"
  verify_within (record { offset = 0; size = 432 }) evidence
  version ← number_at evidence 0 2
  throw_if (not (version == 3)) "Unknown evidence format: unsupported quote version"
  sign_type ← number_at evidence 2 2
  throw_if (not (sign_type == 2)) "Unknown evidence format: unsupported signing type"
  ok (record { offset = 0; size = 432 })

-- `cd_raw` is the place of the certification data's header, and `certification_data` the bytes that
-- the span of this name shows: those of the evidence, or PEM text made from them.
pub record SignatureData : Type 0 where
  pub quote_signature : Span
  pub public_key : Span
  pub report : Span
  pub report_signature : Span
  pub report_data : Span
  pub auth_data : Span
  pub cd_raw : ℕ
  pub certification_data : Bytes

-- The structure `sgx_ql_ecdsa_sig_data_t` at offset `s`, and its fixed parts.
unfoldable pub fixed_parts : ℕ → Bytes → Result (Unit {0})
fixed_parts s evidence = do
  verify_within (record { offset = s; size = signature_data_size }) evidence
  verify_within (record { offset = s + 128; size = report_body_size }) evidence
  verify_within (record { offset = s + 512; size = 64 }) evidence
  verify_within (record { offset = s; size = 64 }) evidence
  verify_within (record { offset = s + 64; size = 64 }) evidence
  verify_within (record { offset = s + 448; size = 64 }) evidence

-- The size and the bytes behind it.
unfoldable pub authentication : ℕ → Bytes → Result Span
authentication s evidence = do
  size ← number_at evidence (s + signature_data_size) 2
  verify_within (record { offset = s + signature_data_size + 2; size = size }) evidence
  throw_if (size == 0) "missing authentication data"
  ok (record { offset = s + signature_data_size + 2; size = size })

unfoldable pub certification : ℕ → Bytes → Result Span
certification cd_raw evidence = do
  size ← number_at evidence (cd_raw + 2) 4
  throw_if (size == 0) "missing certification data"
  verify_within (record { offset = cd_raw + 6; size = size }) evidence
  key_type ← number_at evidence cd_raw 2
  throw_if (not (key_type == 5)) "unsupported certification data key type"
  ok (record { offset = cd_raw + 6; size = size })

abbrev pub is_pem : Bytes → Bool
is_pem cert = bytes_eq (take 5 cert) (codes "-----")

-- `take_pem bio` reads one certificate in DER from OpenSSL's `bio` and prints it: the text, and what
-- is still pending.
module _ (take_pem : Bytes → Result (Bytes × Bytes)) where
  -- `while (BIO_ctrl_pending(bio) > 1)`, with the rounds that are left.
  unfoldable pub pem_loop : ℕ → Bytes → Bytes → Result Bytes
  pem_loop zero bio pem = undefined
  pem_loop (suc rounds) bio pem = elim (ltb 1 (length bio)) [
    | Bool.false ↦ ok pem
    | Bool.true ↦ take_pem bio >>= (λ (text, rest). pem_loop rounds rest (pem ++ text))
  ]

  -- Every certificate takes at least a byte, so that one round for each byte is enough.
  unfoldable pub to_pem : Bytes → Result Bytes
  unfolding pem_loop
  to_pem cert =
      if ltb 5 (length cert) && not (is_pem cert)
      then pem_loop (suc (length cert)) cert []
      else ok cert

  unfoldable pub parse_signature_data : Span → Bytes → Result SignatureData
  unfolding fixed_parts authentication certification to_pem
  parse_signature_data quote evidence = do
    let s = quote.offset + quote_size
    fixed_parts s evidence
    auth_data ← authentication s evidence
    let cd_raw = s + signature_data_size + 2 + auth_data.size
    span ← certification cd_raw evidence
    cert ← bytes_at evidence span.offset span.size
    certification_data ← to_pem cert
    ok (record {
      quote_signature = record { offset = s; size = 64 };
      public_key = record { offset = s + 64; size = 64 };
      report = record { offset = s + 128; size = report_body_size };
      report_signature = record { offset = s + 512; size = 64 };
      report_data = record { offset = s + 448; size = 64 };
      auth_data = auth_data;
      cd_raw = cd_raw;
      certification_data = certification_data;
    })
