-- ===== src/OpenEnclave/Compress.antt =====
-- `compress_pck_certificate_chain` of include/ravl/oe_impl.h.
pub mod Chain
use ravl.Prelude.{
  ℕ, zero, suc, ◌+◌, ◌-◌, ◌%◌, Bool, false, ◌&&◌, Bytes, length, set, get_or, ltb, if◌then◌else◌,
}
use ravl.Result.{Result, ok, throw_if, ◌>>=◌, ◌>>◌}
use ravl.Util.Cursor.{size_mod}
use ravl.Sgx.Consume.{is_empty}
use ravl.Sgx.Layout.{quote_size, number_at, cell}
use ravl.Sgx.Quote.{parse_quote, parse_signature_data}
use ravl.Sgx.Compress.{overwrite, resize, compress_signature_data}

-- `evidence[i - k] = evidence[i];` from index `i` on, in the rounds that are left.
unfoldable pub move_forward : ℕ → ℕ → ℕ → Bytes → Bytes
move_forward zero i k evidence = evidence
move_forward (suc rounds) i k evidence =
    move_forward rounds (i + 1) k (set evidence (i - k) (get_or evidence i 0))

-- The claims are moved behind the chain that is smaller by `k`.
unfoldable pub move_claims : Bytes → ℕ → Bool → Result Bytes
move_claims evidence k resize_evidence = do
  signature_len ← number_at evidence 432 4
  if ltb 0 k && ltb k signature_len
      then (do
        let quote_and_sig_len = quote_size + signature_len
        moved ←
            overwrite
              (move_forward (length evidence - quote_and_sig_len) quote_and_sig_len k evidence) 432
              (cell (signature_len - k))
        if resize_evidence
            then resize moved ((length moved + size_mod - k) % size_mod)
            else ok moved)
      else ok evidence

-- The checks between the first one and the signature data are those of `parse_quote`.
module _ (take_der take_pem : Bytes → Result (Bytes × Bytes)) where
  unfoldable pub compress_pck_certificate_chain : Bytes → Bool → Result Bytes
  compress_pck_certificate_chain evidence resize_evidence = do
    throw_if (is_empty evidence) "empty evidence"
    quote ← parse_quote evidence
    d ← parse_signature_data take_pem quote evidence
    (evidence', k) ← compress_signature_data take_der d evidence false
    move_claims evidence' k resize_evidence
