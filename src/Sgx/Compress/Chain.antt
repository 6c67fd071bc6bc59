-- ===== src/Sgx/Compress/Chain.antt =====
-- A chain in PEM is replaced by the same chain in DER.
use ravl.Prelude.{
  ℕ, ◌+◌, ◌-◌, ◌%◌, ◌^◌, ◌<◌, ◌≤◌, ◌≡◌, refl, sym, ap, ◌∙◌, Bool, true, false, [], ◌∷◌, ◌++◌, Bytes,
  length, take, drop, arith, length-append, append_assoc, take-append-drop, length-take,
  length-drop, if◌then◌else◌,
}
use ravl.Result.{Result, ok, bind_returned, ◌>>=◌}
use ravl.Util.Cursor.{size_mod}
use ravl.Sgx.Consume.{is_empty}
use ravl.Sgx.Layout.{Span, cell}
use ravl.Sgx.Layout.Parts.{is_empty-false}
use ravl.Sgx.Quote.{SignatureData, is_pem, parse_quote, parse_signature_data, to_pem}
use ravl.Sgx.Quote.Layout.{
  Parts, IsQuote, front, layout, signature_len, half, found, length-front, length-layout,
  signature_len_at, parse_quote-layout, parse_signature_data-layout,
}
use ravl.Sgx.Compress.{
  overwrite, resize, to_der, compress_chain, compress_signature_data, shorten_signature,
  compress_pck_certificate_chain,
}
use ravl.Sgx.Compress.Overwrite.{overwrite-append, resize-append}

-- A certificate chain is already in PEM.
pub to_pem-is_pem :
    (take_pem : Bytes → Result (Bytes × Bytes)) (cert : Bytes)
    → is_pem cert ≡ true
    → to_pem take_pem cert ≡ ok cert
unfolding to_pem
to_pem-is_pem take_pem cert h = ground (arith, h)

module _ (p : Parts) (is : IsQuote p) (n : ℕ) where
  abbrev a : ℕ
  a = length p.auth_data

  -- The bytes of the new chain over the first bytes of the old one, and its size before it.
  pub overwrite-chain :
      (old der rest : Bytes) (m : ℕ)
      → length der ≤ length old
      → (overwrite (front p n ++ (cell m ++ (old ++ rest))) (1014 + a + 6) der
          >>= (λ b. overwrite b (1014 + a + 2) (cell (length der))))
        ≡ ok (layout p n der (drop (length der) old ++ rest))
  overwrite-chain old der rest m less =
      let after = drop (length der) old ++ rest in
      let l = length-front p is n in
      let whole : front p n ++ (cell m ++ (old ++ rest))
          ≡ (front p n ++ cell m) ++ (take (length der) old ++ after) =
        ap (λ o. front p n ++ (cell m ++ (o ++ rest))) (sym (take-append-drop (length der) old))
        ∙ simp append_assoc in
      let first =
        overwrite-append (front p n ++ (cell m ++ (old ++ rest))) (front p n ++ cell m)
          (take (length der) old) after der (1014 + a + 6) whole
          (omega (arith, l, length-append (front p n) (cell m)))
          (omega (arith, length-take (length der) old, less)) in
      let second =
        overwrite-append ((front p n ++ cell m) ++ (der ++ after)) (front p n) (cell m)
          (der ++ after) (cell (length der)) (1014 + a + 2) (simp append_assoc) (sym l) refl in
      rw first second

  -- The signature's length, made smaller by `k`.
  pub shorten-layout :
      (cert rest : Bytes) (k : ℕ)
      → n < 2 ^ 32
      → 0 < k
      → k < n
      → shorten_signature (layout p n cert rest) k ≡ ok (layout p (n - k) cert rest)
  unfolding shorten_signature
  shorten-layout cert rest k fits some less =
      let tail =
        p.fixed
        ++ (half a ++ (p.auth_data ++ ((5 ∷ 0 ∷ []) ++ (cell (length cert) ++ (cert ++ rest))))) in
      let written =
        overwrite-append (layout p n cert rest) p.head (cell n) tail (cell (n - k)) 432
          (simp append_assoc) (sym is.head) refl in
      let again : p.head ++ (cell (n - k) ++ tail) ≡ layout p (n - k) cert rest =
        simp append_assoc in
      ground (arith, signature_len_at p is n cert rest fits, some, less, written, ap ok again)

-- The conversion of a chain in PEM to one in DER that is smaller.
pub record IsConverted (take_der : Bytes → Result (Bytes × Bytes)) (pem der : Bytes) : Type 0 where
  pub converted : to_der take_der pem ≡ ok der
  pub text : is_pem pem ≡ true
  pub long : 5 < length pem
  pub smaller : length der < length pem
  pub short : length pem < 2 ^ 32

module _ (take_der : Bytes → Result (Bytes × Bytes)) where
  module _ (d : SignatureData) (b b' der : Bytes)
      (c : IsConverted take_der d.certification_data der) (some : is_empty b ≡ false)
      (written : (overwrite b (d.cd_raw + 6) der
          >>= (λ b₁. overwrite b₁ (d.cd_raw + 2) (cell (length der))))
        ≡ ok b') where
    abbrev r : ℕ
    r = length d.certification_data - length der

    saved : (length d.certification_data + size_mod - length der) % size_mod ≡ r
    saved = omega (arith, c.smaller, c.short)

    compress_lem :
        (resize_evidence : Bool)
        → compress_signature_data take_der d b resize_evidence ≡ (
            if resize_evidence
            then (resize b' ((length b' + size_mod - r) % size_mod) >>= (λ b₃. ok (b₃, r)))
            else ok (b', r))
    unfolding compress_signature_data compress_chain
    compress_lem resize_evidence =
        let (b₁, e₁, f₁) = bind_returned (overwrite b (d.cd_raw + 6) der) _ written in
        ground (arith, c.converted, c.text, c.long, some, saved, e₁, f₁)

  module _ (p : Parts) (is : IsQuote p) (n : ℕ) (old pem der : Bytes)
      (c : IsConverted take_der pem der) (room : length der ≤ length old) where
    abbrev pub written : Bytes → Bytes
    written rest = layout p n der (drop (length der) old ++ rest)

    pub compress-layout :
        (rest : Bytes) (resize_evidence : Bool)
        → compress_signature_data take_der
            (found (length p.auth_data) pem)
            (layout p n old rest)
            resize_evidence
          ≡ (if resize_evidence
              then (resize
                    (written rest)
                    ((length (written rest) + size_mod - (length pem - length der)) % size_mod)
                  >>= (λ b. ok (b, length pem - length der)))
              else ok (written rest, length pem - length der))
    compress-layout rest resize_evidence =
        compress_lem (found (length p.auth_data) pem) (layout p n old rest) (written rest) der c
          (is_empty-false (layout p n old rest) (omega (arith, length-layout p is n old rest)))
          (overwrite-chain p is n old der rest (length old) room) resize_evidence

  pub compress_steps :
      (take_pem : Bytes → Result (Bytes × Bytes)) (b b' out : Bytes) (quote : Span)
      (d : SignatureData) (k : ℕ) (resize_evidence : Bool)
      → parse_quote b ≡ ok quote
      → parse_signature_data take_pem quote b ≡ ok d
      → compress_signature_data take_der d b resize_evidence ≡ ok (b', k)
      → shorten_signature b' k ≡ ok out
      → compress_pck_certificate_chain take_der take_pem b resize_evidence ≡ ok out
  unfolding compress_pck_certificate_chain
  compress_steps take_pem b b' out quote d k flag e₁ e₂ e₃ e₄ = rw (e₁, e₂, e₃) e₄

  -- A quote whose chain is in PEM, with nothing behind it: it becomes the same quote with the chain
  -- in DER, and with the signature's length for this chain.
  pub compress-layout_pem :
      (take_pem : Bytes → Result (Bytes × Bytes)) (p : Parts) (pem der : Bytes)
      → IsQuote p
      → IsConverted take_der pem der
      → signature_len p pem < 2 ^ 32
      → compress_pck_certificate_chain take_der take_pem
          (layout p (signature_len p pem) pem [])
          true
        ≡ ok (layout p (signature_len p der) der [])
  compress-layout_pem take_pem p pem der is c fits =
      let n = signature_len p pem in
      let b = layout p n pem [] in
      let size = length-layout p is n pem [] in
      let k = length pem - length der in
      let kept = drop (length der) pem ++ [] in
      let quote = parse_quote-layout p is n pem [] fits (omega (arith, size)) in
      let parsed =
        parse_signature_data-layout p is n pem [] fits take_pem (omega (arith, c.long)) c.short
        ∙ ap (λ (t : Result Bytes). t >>= (λ x. ok (found (length p.auth_data) x)))
            (to_pem-is_pem take_pem pem c.text) in
      let compressed = compress-layout p is n pem pem der c (omega (arith, c.smaller)) [] true in
      let same : (length (layout p n der kept) + size_mod - k) % size_mod
          ≡ length (layout p n der []) =
        omega (
          arith,
          length-layout p is n der kept,
          length-layout p is n der [],
          length-append (drop (length der) pem) [],
          length-drop (length der) pem,
          c.smaller,
          c.short,
          is.short_auth_data,
        ) in
      let cut =
        resize-append (layout p n der kept) (layout p n der []) kept _ (simp append_assoc) same in
      let less : 0 < k = omega (arith, c.smaller) in
      let shortened = shorten-layout p is n der [] k fits less (omega arith) in
      let matching : n - k ≡ signature_len p der = omega (arith, c.smaller) in
      compress_steps take_pem b (layout p n der []) (layout p (signature_len p der) der [])
        (record { offset = 0; size = 432 }) (found (length p.auth_data) pem) k true quote parsed
        (compressed ∙ ap (λ (t : Result Bytes). t >>= (λ x. ok (x, k))) cut)
        (shortened ∙ ap (λ m. ok (layout p m der [])) matching)
