-- ===== src/Sgx/Compress.antt =====
-- `compress_pck_certificate_chain` of include/ravl/sgx_impl.h, on signature data and on an
-- attestation: the certificate chain of the quote is rewritten in place, from PEM to DER.
pub mod Overwrite
pub mod Chain
pub mod Twice
use ravl.Prelude.{
  ℕ, zero, suc, ◌+◌, ◌-◌, ◌*◌, ◌%◌, ◌^◌, Bool, true, false, ◌&&◌, [], ◌++◌, Bytes, length, take,
  drop, replicate, ltb, leb, if◌then◌else◌,
}
use ravl.Result.{Result, ok, err, undefined, runtime_error, length_error, throw_if, ◌>>=◌, ◌>>◌}
use ravl.Util.Cursor.{size_mod, max_size}
use ravl.Sgx.Consume.{is_empty}
use ravl.Sgx.Layout.{quote_size, number_at, cell}
use ravl.Sgx.Quote.{SignatureData, is_pem, parse_quote, parse_signature_data}

-- Writes through a pointer into the evidence; behind its end they are undefined.
unfoldable pub overwrite : Bytes → ℕ → Bytes → Result Bytes
overwrite evidence offset bytes =
    if leb (offset + length bytes) (length evidence)
    then ok (take offset evidence ++ (bytes ++ drop (offset + length bytes) evidence))
    else undefined

-- `evidence.resize(n)`. A vector that grows may move, and the pointers into it that are used later
-- are then void.
unfoldable pub resize : Bytes → ℕ → Result Bytes
resize evidence n =
    if leb n (length evidence)
    then ok (take n evidence)
    else if ltb max_size n
    then err length_error
    else undefined

-- `if (k > 0 && k < quote->signature_len) quote->signature_len -= k;`
unfoldable pub shorten_signature : Bytes → ℕ → Result Bytes
shorten_signature evidence k = do
  signature_len ← number_at evidence 432 4
  if ltb 0 k && ltb k signature_len
      then overwrite evidence 432 (cell (signature_len - k))
      else ok evidence

-- `take_der bio` reads one certificate in PEM from OpenSSL's `bio`: its DER, and what is pending.
module _ (take_der : Bytes → Result (Bytes × Bytes)) where
  -- `while (BIO_ctrl_pending(bio) > 1)`, with the rounds that are left.
  unfoldable pub der_loop : ℕ → Bytes → Bytes → Result Bytes
  der_loop zero bio der_data = undefined
  der_loop (suc rounds) bio der_data = elim (ltb 1 (length bio)) [
    | Bool.false ↦ ok der_data
    | Bool.true ↦ take_der bio >>= (λ (der, rest). der_loop rounds rest (der_data ++ der))
  ]

  -- Every certificate takes at least a byte, so that one round for each byte is enough.
  unfoldable pub to_der : Bytes → Result Bytes
  to_der certification_data = der_loop (suc (length certification_data)) certification_data []

  -- The chain in DER over the chain in PEM, and the size before it: the evidence, and by how much
  -- the chain is smaller.
  unfoldable pub compress_chain : SignatureData → Bytes → Bool → Result (Bytes × ℕ)
  compress_chain d evidence resize_evidence = do
    der_data ← to_der d.certification_data
    evidence₁ ← overwrite evidence (d.cd_raw + 6) der_data
    evidence₂ ← overwrite evidence₁ (d.cd_raw + 2) (cell (length der_data))
    let r = (length d.certification_data + size_mod - length der_data) % size_mod
    if resize_evidence
        then resize evidence₂ ((length evidence₂ + size_mod - r) % size_mod)
          >>= (λ evidence₃. ok (evidence₃, r))
        else ok (evidence₂, r)

  -- `SignatureData::compress_pck_certificate_chain`; `cd_raw` is never null.
  unfoldable pub compress_signature_data : SignatureData → Bytes → Bool → Result (Bytes × ℕ)
  compress_signature_data d evidence resize_evidence = do
    throw_if (is_empty evidence) "empty evidence"
    if ltb 5 (length d.certification_data) && is_pem d.certification_data
        then compress_chain d evidence resize_evidence
        else ok (evidence, 0)

  -- `Attestation::compress_pck_certificate_chain`. Its checks are those of `parse_quote`.
  module _ (take_pem : Bytes → Result (Bytes × Bytes)) where
    unfoldable pub compress_pck_certificate_chain : Bytes → Bool → Result Bytes
    compress_pck_certificate_chain evidence resize_evidence = do
      quote ← parse_quote evidence
      d ← parse_signature_data take_pem quote evidence
      (evidence', k) ← compress_signature_data d evidence resize_evidence
      shorten_signature evidence' k
