-- ===== src/OpenEnclave/Compress/Chain.antt =====
-- The chain of an Open Enclave attestation is compressed, and its custom claims stay behind it.
use ravl.Prelude.{
  ℕ, suc, ◌+◌, ◌-◌, ◌%◌, ◌^◌, ◌<◌, ◌≡◌, refl, sym, ap, ◌∙◌, Bool, true, false, [], ◌∷◌, ◌++◌, Bytes,
  length, drop, arith, length-append, length-drop, append_assoc, append-nil, set, get_or,
}
use ravl.Result.{Result, ok, ◌>>=◌}
use ravl.Util.Cursor.{size_mod}
use ravl.Sgx.Consume.{is_empty}
use ravl.Sgx.Layout.{Span, number_at, cell}
use ravl.Sgx.Layout.Parts.{is_empty-false}
use ravl.Sgx.Quote.{SignatureData, parse_quote, parse_signature_data}
use ravl.Sgx.Quote.Layout.{
  Parts, IsQuote, front, layout, signature_len, half, found, length-front, length-layout,
  signature_len_at, parse_quote-layout, parse_signature_data-layout,
}
use ravl.Sgx.Compress.{overwrite, resize, compress_signature_data}
use ravl.Sgx.Compress.Overwrite.{overwrite-append, resize-append}
use ravl.Sgx.Compress.Chain.{IsConverted, to_pem-is_pem, compress-layout}
use ravl.OpenEnclave.Compress.{move_forward, move_claims, compress_pck_certificate_chain}

set-append : (pre xs : Bytes) (x y : ℕ) → set (pre ++ (x ∷ xs)) (length pre) y ≡ pre ++ (y ∷ xs)
set-append [] xs x y = refl
set-append (p ∷ pre) xs x y = ap (λ l. p ∷ l) (set-append pre xs x y)

get_or-append : (pre xs : Bytes) (x d : ℕ) → get_or (pre ++ (x ∷ xs)) (length pre) d ≡ x
get_or-append [] xs x d = refl
get_or-append (p ∷ pre) xs x d = get_or-append pre xs x d

append_split : (xs ys zs : Bytes) → xs ++ (ys ++ zs) ≡ (xs ++ ys) ++ zs
append_split xs ys zs = sym (append_assoc xs ys zs)

-- The bytes `rest` move over a gap of `k` bytes, which then stands behind them.
record Moved (pre gap rest : Bytes) : Type 0 where
  pub behind : Bytes
  pub same_size : length behind ≡ length gap
  pub result :
      move_forward (length rest) (length pre + length gap) (length gap) (pre ++ (gap ++ rest))
      ≡ pre ++ (rest ++ behind)

move_forward-Moved : (pre gap rest : Bytes) → 0 < length gap → Moved pre gap rest
unfolding move_forward
move_forward-Moved pre gap [] h = record {
  behind = gap;
  same_size = refl;
  result = ap (λ l. pre ++ l) (append-nil gap);
}
move_forward-Moved pre [] (x ∷ rest) h = absurd (omega (arith, h))
move_forward-Moved pre (g ∷ gap) (x ∷ rest) h =
    let next =
      move_forward-Moved (pre ++ (x ∷ [])) (gap ++ (x ∷ [])) rest
        (omega (arith, length-append gap (x ∷ []))) in
    let bytes = pre ++ (g ∷ (gap ++ (x ∷ rest))) in
    let i = length pre + suc (length gap) in
    let k = suc (length gap) in
    let longer : length (gap ++ (x ∷ [])) ≡ k = omega (arith, length-append gap (x ∷ [])) in
    let place : length (pre ++ (x ∷ [])) + k ≡ i + 1 = omega (arith, length-append pre (x ∷ [])) in
    let here : i ≡ length (pre ++ (g ∷ gap)) = omega (arith, length-append pre (g ∷ gap)) in
    let there : i - k ≡ length pre = omega arith in
    let read : get_or bytes i 0 ≡ x =
      rw (here, append_split pre (g ∷ gap) (x ∷ rest))
        (get_or-append (pre ++ (g ∷ gap)) rest x 0) in
    let written : set bytes (i - k) x ≡ (pre ++ (x ∷ [])) ++ ((gap ++ (x ∷ [])) ++ rest) =
      ap (λ j. set bytes j x) there ∙ set-append pre (gap ++ (x ∷ rest)) g x ∙ simp append_assoc in
    record {
      behind = next.behind;
      same_size = next.same_size ∙ longer;
      result =
          ap (λ y. move_forward (length rest) (i + 1) k (set bytes (i - k) y)) read
          ∙ ap (λ b. move_forward (length rest) (i + 1) k b) written
          ∙ rw (longer, place) at next.result
          ∙ append_assoc pre (x ∷ []) (rest ++ next.behind);
    }

-- The steps of `move_claims` when there is something to move.
move_claims_lem :
    (b moved out : Bytes) (n k : ℕ)
    → number_at b 432 4 ≡ ok n
    → 0 < k
    → k < n
    → overwrite (move_forward (length b - (436 + n)) (436 + n) k b) 432 (cell (n - k)) ≡ ok moved
    → resize moved ((length moved + size_mod - k) % size_mod) ≡ ok out
    → move_claims b k true ≡ ok out
unfolding move_claims
move_claims_lem b moved out n k e some less w r = ground (arith, e, some, less, w, r)

module _ (p : Parts) (is : IsQuote p) (pem der claims : Bytes) where
  abbrev n : ℕ
  n = signature_len p pem

  -- The claims behind what is left of the old chain, of which they take the place.
  move_claims-layout :
      (gap : Bytes)
      → length der + length gap ≡ length pem
      → 0 < length gap
      → n < 2 ^ 32
      → length claims < 2 ^ 62
      → move_claims (layout p n der (gap ++ claims)) (length gap) true
        ≡ ok (layout p (n - length gap) der claims)
  move_claims-layout gap sum some fits short =
      let b = layout p n der (gap ++ claims) in
      let k = length gap in
      let pre = front p n ++ (cell (length der) ++ der) in
      let m = move_forward-Moved pre gap claims some in
      let size_pre : length pre ≡ 1020 + length p.auth_data + length der =
        omega (arith, length-front p is n, length-append (front p n) (cell (length der) ++ der)) in
      let size_b : length b ≡ 1020 + length p.auth_data + length der + k + length claims =
        omega (arith, length-layout p is n der (gap ++ claims), length-append gap claims) in
      let same : b ≡ pre ++ (gap ++ claims) = simp append_assoc in
      let rounds : length b - (436 + n) ≡ length claims = omega (arith, size_b, sum) in
      let from : 436 + n ≡ length pre + k = omega (arith, size_pre, sum) in
      let moved : move_forward (length b - (436 + n)) (436 + n) k b ≡ pre ++ (claims ++ m.behind) =
        ap (λ j. move_forward j (436 + n) k b) rounds
        ∙ ap (λ j. move_forward (length claims) j k b) from
        ∙ ap (λ l. move_forward (length claims) (length pre + k) k l) same
        ∙ m.result in
      let tail =
        p.fixed
        ++ (half (length p.auth_data)
            ++ (p.auth_data
                ++ ((5 ∷ 0 ∷ []) ++ (cell (length der) ++ (der ++ (claims ++ m.behind)))))) in
      let after = layout p (n - k) der (claims ++ m.behind) in
      let again : p.head ++ (cell (n - k) ++ tail) ≡ after = simp append_assoc in
      let written =
        ap (λ l. overwrite l 432 (cell (n - k))) moved
        ∙ overwrite-append (pre ++ (claims ++ m.behind)) p.head (cell n) tail (cell (n - k)) 432
            (simp append_assoc) (sym is.head) refl
        ∙ ap ok again in
      let size_after = length-layout p is (n - k) der (claims ++ m.behind) in
      let size_out = length-layout p is (n - k) der claims in
      let left : (length after + size_mod - k) % size_mod ≡ length (layout p (n - k) der claims) =
        omega (
          arith,
          size_after,
          size_out,
          length-append claims m.behind,
          m.same_size,
          short,
          fits,
          sum,
          is.short_auth_data,
        ) in
      move_claims_lem b after (layout p (n - k) der claims) n k
        (signature_len_at p is n der (gap ++ claims) fits) some (omega (arith, sum)) written
        (resize-append after (layout p (n - k) der claims) m.behind _ (simp append_assoc) left)

compress_steps :
    (take_der take_pem : Bytes → Result (Bytes × Bytes)) (b b' out : Bytes) (quote : Span)
    (d : SignatureData) (k : ℕ) (resize_evidence : Bool)
    → is_empty b ≡ false
    → parse_quote b ≡ ok quote
    → parse_signature_data take_pem quote b ≡ ok d
    → compress_signature_data take_der d b false ≡ ok (b', k)
    → move_claims b' k resize_evidence ≡ ok out
    → compress_pck_certificate_chain take_der take_pem b resize_evidence ≡ ok out
unfolding compress_pck_certificate_chain
compress_steps take_der take_pem b b' out quote d k flag e₀ e₁ e₂ e₃ e₄ = rw (e₀, e₁, e₂, e₃) e₄

-- A quote whose chain is in PEM, with custom claims behind its signature: it becomes the same quote
-- with the chain in DER, the signature's length for this chain, and the same claims behind it.
pub compress-layout_claims :
    (take_der take_pem : Bytes → Result (Bytes × Bytes)) (p : Parts) (pem der claims : Bytes)
    → IsQuote p
    → IsConverted take_der pem der
    → signature_len p pem < 2 ^ 32
    → length claims < 2 ^ 62
    → compress_pck_certificate_chain take_der take_pem
        (layout p (signature_len p pem) pem claims)
        true
      ≡ ok (layout p (signature_len p der) der claims)
compress-layout_claims take_der take_pem p pem der claims is c fits short =
    let n = signature_len p pem in
    let b = layout p n pem claims in
    let size = length-layout p is n pem claims in
    let gap = drop (length der) pem in
    let left : length gap ≡ length pem - length der = omega (arith, length-drop (length der) pem) in
    let parsed =
      parse_signature_data-layout p is n pem claims fits take_pem (omega (arith, c.long)) c.short
      ∙ ap (λ (t : Result Bytes). t >>= (λ x. ok (found (length p.auth_data) x)))
          (to_pem-is_pem take_pem pem c.text) in
    let moved =
      move_claims-layout p is pem der claims gap (omega (arith, left, c.smaller))
        (omega (arith, left, c.smaller)) fits short in
    let matching : n - length gap ≡ signature_len p der = omega (arith, left, c.smaller) in
    compress_steps take_der take_pem b (layout p n der (gap ++ claims))
      (layout p (signature_len p der) der claims) (record { offset = 0; size = 432 })
      (found (length p.auth_data) pem) (length pem - length der) true
      (is_empty-false b (omega (arith, size)))
      (parse_quote-layout p is n pem claims fits (omega (arith, size))) parsed
      (compress-layout take_der p is n pem pem der c (omega (arith, c.smaller)) claims false)
      (ap (λ k. move_claims (layout p n der (gap ++ claims)) k true) (sym left)
        ∙ moved
        ∙ ap (λ m. ok (layout p m der claims)) matching)
