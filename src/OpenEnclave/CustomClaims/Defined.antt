-- ===== src/OpenEnclave/CustomClaims/Defined.antt =====
-- Where `extract_custom_claims` reads.
use ravl.Prelude.{
  ℕ, zero, suc, ◌+◌, ◌-◌, ◌*◌, ◌^◌, ◌<◌, ◌≤◌, ◌≡◌, ◌≢◌, String, Bytes, length, arith, ◌==◌,
}
use ravl.Result.{
  ok, undefined, throw_if, bind_defined, bind_defined_after, throw_if_defined, ok_defined,
}
use ravl.Http.Message.{Headers, emplace_header}
use ravl.Sgx.Layout.{
  Span, bytes_at, number_at, IsWithin, IsWithin-verify_within, verify_within_defined,
  number_at_defined,
}
use ravl.OpenEnclave.CustomClaims.{
  verify_size, read_claim, read_claims, read_all, extract_custom_claims,
}

-- The two sizes of entry `i`, where the code looks for them, are not larger than the largest object.
abbrev pub IsSmall : Bytes → ℕ → Type 0
IsSmall bytes i =
    ((n : ℕ) → number_at bytes (16 + 16 * i) 8 ≡ ok n → n < 2 ^ 63)
    × ((v : ℕ) → number_at bytes (16 + 16 * i + 8) 8 ≡ ok v → v < 2 ^ 63)

-- So are those of each entry that the header counts.
abbrev pub HasSmallSizes : Bytes → Type 0
HasSmallSizes bytes = (k i : ℕ) → number_at bytes 8 8 ≡ ok k → i < k → IsSmall bytes i

bytes_at_defined :
    (bytes : Bytes) (offset size : ℕ)
    → offset + size ≤ length bytes
    → bytes_at bytes offset size ≢ undefined
unfolding bytes_at
bytes_at_defined bytes offset size h = ground (arith, h)

verify_size_defined : (s : Span) (bytes : Bytes) → s.size < 2 ^ 63 → verify_size s bytes ≢ undefined
unfolding verify_size
verify_size_defined s bytes h = ground (arith, h, verify_within_defined s bytes)

verify_size-IsWithin :
    (s : Span) (bytes : Bytes) {u : Unit {0}} → verify_size s bytes ≡ ok u → IsWithin s bytes
unfolding verify_size
verify_size-IsWithin s bytes h = ground (arith, h, IsWithin-verify_within s bytes)

some_name : (n : ℕ) (message : String) {u : Unit {0}} → throw_if (n == 0) message ≡ ok u → 0 < n
some_name n message h = ground (arith, h)

read_claim_defined :
    (bytes : Bytes) (i : ℕ) → IsSmall bytes i → read_claim bytes (16 + 16 * i) ≢ undefined
unfolding read_claim
read_claim_defined bytes i small =
    let p = 16 + 16 * i in
    bind_defined_after _ _ (verify_within_defined _ bytes) (λ _ f₁.
      let entry : p + 16 ≤ length bytes =
        IsWithin-verify_within (record { offset = p; size = 16 }) bytes f₁ in
      bind_defined_after _ _ (number_at_defined bytes p 8 (omega (arith, entry))) (λ n e₁.
        bind_defined_after _ _
          (verify_size_defined (record { offset = p + 16; size = n }) bytes (small.0 n e₁))
          (λ _ f₂.
            let named : p + 16 + n ≤ length bytes =
              verify_size-IsWithin (record { offset = p + 16; size = n }) bytes f₂ in
            bind_defined_after _ _ (number_at_defined bytes (p + 8) 8 (omega (arith, entry)))
              (λ v e₂.
                bind_defined_after _ _
                  (verify_size_defined (record { offset = p + 16 + n; size = v }) bytes
                    (small.1 v e₂))
                  (λ _ f₃.
                    let valued : p + 16 + n + v ≤ length bytes =
                      verify_size-IsWithin (record { offset = p + 16 + n; size = v }) bytes f₃ in
                    bind_defined_after _ _ (throw_if_defined _ _) (λ (u : Unit {0}) f₄.
                      bind_defined _ _
                        (number_at_defined bytes (p + 16 + n - 1) 1
                          (omega (arith, named, some_name n _ f₄)))
                        (λ last. bind_defined _ _ (throw_if_defined _ _) (λ _.
                          bind_defined _ _
                            (bytes_at_defined bytes (p + 16) (n - 1) (omega (arith, named)))
                            (λ name.
                              bind_defined _ _ (bytes_at_defined bytes (p + 16 + n) v valued)
                                (λ value. ok_defined _))))))))))

read_claims_defined :
    (bytes : Bytes) (k i : ℕ) (m : Headers)
    → ((j : ℕ) → j < i + k → IsSmall bytes j)
    → read_claims bytes k i m ≢ undefined
unfolding read_claims
read_claims_defined bytes zero i m small = ok_defined m
read_claims_defined bytes (suc k) i m small =
    bind_defined _ _ (read_claim_defined bytes i (small i (omega arith))) (λ (n, v).
      read_claims_defined bytes k (i + 1) (emplace_header m n v)
        (λ j h. small j (omega (arith, h))))

read_all_defined :
    (bytes : Bytes) (m : Headers)
    → HasSmallSizes bytes
    → 16 ≤ length bytes
    → read_all bytes m ≢ undefined
unfolding read_all
read_all_defined bytes m small long =
    bind_defined _ _ (number_at_defined bytes 0 8 (omega (arith, long))) (λ version.
      bind_defined _ _ (throw_if_defined _ _) (λ _.
        bind_defined_after _ _ (number_at_defined bytes 8 8 (omega (arith, long))) (λ k counted.
          read_claims_defined bytes k 0 m (λ j h. small k j counted (omega (arith, h))))))

-- Custom claims in which none of the entries that the header counts gives, at the place where the
-- code looks for it, a size of 2 ^ 63 or more: nothing is read behind them, whatever else they hold.
-- The call returns or throws.
pub extract_custom_claims_defined :
    (bytes : Bytes) (m : Headers) → HasSmallSizes bytes → extract_custom_claims bytes m ≢ undefined
unfolding extract_custom_claims
extract_custom_claims_defined bytes m small = ground (arith, read_all_defined bytes m small)
