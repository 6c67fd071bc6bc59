-- ===== src/Tests/Compress.antt =====
-- The compression of certificate chains at concrete inputs.
use ravl.Prelude.{◌≡◌, refl, true, [], ◌∷◌, ◌++◌, Bytes, codes, replicate, take, drop, arith}
use ravl.Result.{Result, ok, err, runtime_error, ◌>>=◌}
use ravl.Sgx.Layout.{number_at, bytes_at}
use ravl.Sgx.Quote.{to_pem, pem_loop, parse_signature_data}
use ravl.Sgx.Quote.Layout.{Parts, IsQuote, layout}
use ravl.Sgx.Compress.{to_der, der_loop, compress_pck_certificate_chain}
use ravl.Sgx.Compress.Chain.{IsConverted, compress-layout_pem}
use ravl.Sgx.Compress.Twice.{compress-layout_der}
use ravl.OpenEnclave.Compress.Chain.{compress-layout_claims}
use ravl.OpenEnclave

-- A library whose texts are the bytes behind five dashes.
abbrev take_pem : Bytes → Result (Bytes × Bytes)
take_pem bio = ok (codes "-----" ++ bio, [])

abbrev take_der : Bytes → Result (Bytes × Bytes)
take_der bio = ok (drop 5 bio, [])

abbrev chain : Bytes
chain = 48 ∷ 130 ∷ 4 ∷ 1 ∷ 2 ∷ 3 ∷ []

abbrev text : Bytes
text = codes "-----" ++ chain

abbrev parts : Parts
parts = record {
  head = (3 ∷ 0 ∷ 2 ∷ 0 ∷ []) ++ replicate 428 0;
  fixed = replicate 576 0;
  auth_data = 7 ∷ [];
}

parts-IsQuote : IsQuote parts
unfolding number_at bytes_at
parts-IsQuote = record {
  head = refl;
  version = refl;
  sign_type = refl;
  fixed = refl;
  some_auth_data = omega arith;
  short_auth_data = omega arith;
}

text-IsConverted : IsConverted take_der text chain
unfolding to_der der_loop
text-IsConverted = record {
  converted = refl;
  text = refl;
  long = omega arith;
  smaller = omega arith;
  short = omega arith;
}

compress-layout_pem_example :
    compress_pck_certificate_chain take_der take_pem (layout parts 596 text []) true
    ≡ ok (layout parts 591 chain [])
compress-layout_pem_example =
    compress-layout_pem take_der take_pem parts text chain parts-IsQuote text-IsConverted
      (omega arith)

compress-layout_der_example :
    (compress_pck_certificate_chain take_der take_pem (layout parts 591 chain []) true
      ≡ ok (take 1022 (layout parts 586 chain [])))
    × ((compress_pck_certificate_chain take_der take_pem (layout parts 591 chain []) true
          >>= (λ b. parse_signature_data take_pem (record { offset = 0; size = 432 }) b))
        ≡ err (runtime_error "invalid pointer"))
unfolding to_pem pem_loop
compress-layout_der_example =
    compress-layout_der take_der take_pem parts text chain parts-IsQuote refl text-IsConverted
      (omega arith) (omega arith)

compress-layout_claims_example :
    OpenEnclave.Compress.compress_pck_certificate_chain take_der take_pem
      (layout parts 596 text (1 ∷ 2 ∷ 3 ∷ []))
      true
    ≡ ok (layout parts 591 chain (1 ∷ 2 ∷ 3 ∷ []))
compress-layout_claims_example =
    compress-layout_claims take_der take_pem parts text chain (1 ∷ 2 ∷ 3 ∷ []) parts-IsQuote
      text-IsConverted (omega arith) (omega arith)
