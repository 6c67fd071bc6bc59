-- ===== src/Sgx/Quote/Pem.antt =====
-- The loop over the certificates in DER ends.
use ravl.Prelude.{
  ℕ, zero, suc, ◌<◌, ◌≡◌, ◌≢◌, refl, Bool, true, false, not, ◌&&◌, Bytes, [], ◌++◌, arith, length,
  ltb, if◌then◌else◌,
}
use ravl.Result.{Result, ok, err, undefined, ok_defined, ◌>>=◌}
use ravl.Sgx.Quote.{is_pem, pem_loop, to_pem}

-- OpenSSL either throws or reads a certificate, which takes at least a byte.
pub record TakesBytes (take_pem : Bytes → Result (Bytes × Bytes)) : Type 0 where
  pub total : (bio : Bytes) → take_pem bio ≢ undefined
  pub shorter : (bio text rest : Bytes) → take_pem bio ≡ ok (text, rest) → length rest < length bio

module _ (take_pem : Bytes → Result (Bytes × Bytes)) (takes : TakesBytes take_pem) where
  pem_step :
      (rounds : ℕ) (bio pem : Bytes) (more : Bool) (r : Result (Bytes × Bytes))
      → take_pem bio ≡ r
      → length bio < suc rounds
      → ((rest pem : Bytes) → length rest < rounds → pem_loop take_pem rounds rest pem ≢ undefined)
      → elim more [
        | Bool.false ↦ ok pem
        | Bool.true ↦ r >>= (λ (text, rest). pem_loop take_pem rounds rest (pem ++ text))
      ]
        ≢ undefined
  pem_step rounds bio pem false r e h again = ok_defined pem
  pem_step rounds bio pem true (ok (text, rest)) e h again =
      again rest (pem ++ text) (omega (arith, takes.shorter bio text rest e, h))
  pem_step rounds bio pem true (err x) e h again = cc
  pem_step rounds bio pem true undefined e h again = absurd (takes.total bio e)

  pem_loop_defined :
      (rounds : ℕ) (bio pem : Bytes)
      → length bio < rounds
      → pem_loop take_pem rounds bio pem ≢ undefined
  unfolding pem_loop
  pem_loop_defined zero bio pem h = absurd (omega (arith, h))
  pem_loop_defined (suc rounds) bio pem h =
      pem_step rounds bio pem (ltb 1 (length bio)) (take_pem bio) refl h
        (λ rest p l. pem_loop_defined rounds rest p l)

  -- If OpenSSL throws or takes at least a byte for each certificate, the conversion to PEM never
  -- runs out of its rounds: it returns or throws.
  pub to_pem_defined : (cert : Bytes) → to_pem take_pem cert ≢ undefined
  unfolding to_pem
  to_pem_defined cert = go (ltb 5 (length cert) && not (is_pem cert))
    where
      go :
          (b : Bool)
          → (if b then pem_loop take_pem (suc (length cert)) cert [] else ok cert) ≢ undefined
      go true = pem_loop_defined (suc (length cert)) cert [] (omega arith)
      go false = ok_defined cert
