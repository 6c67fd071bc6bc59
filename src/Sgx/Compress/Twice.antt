-- ===== src/Sgx/Compress/Twice.antt =====
-- A chain that is in DER already is not left alone: the signature data has it in PEM, and the
-- difference of the two sizes is cut off the evidence.
use ravl.Prelude.{
  ℕ, ◌+◌, ◌-◌, ◌*◌, ◌%◌, ◌^◌, ◌<◌, ◌≤◌, ◌≡◌, refl, sym, ap, ◌∙◌, true, [], ◌∷◌, ◌++◌, Bytes, length,
  take, drop, arith, length-append, append_assoc, append-nil, length-take, drop-length,
}
use ravl.Result.{Result, ok, err, runtime_error, ◌>>=◌}
use ravl.Util.Cursor.{size_mod}
use ravl.Sgx.Layout.{number_at, cell}
use ravl.Sgx.Layout.Parts.{number_at-take}
use ravl.Sgx.Quote.{parse_signature_data, to_pem}
use ravl.Sgx.Quote.Layout.{
  Parts, IsQuote, layout, signature_len, half, found, length-layout, signature_len_at, auth_size_at,
  cert_size_at, parse_quote-layout, parse_signature_data-layout, parse_signature_data_short,
}
use ravl.Sgx.Compress.{overwrite, resize, shorten_signature, compress_pck_certificate_chain}
use ravl.Sgx.Compress.Overwrite.{overwrite-append, take-append}
use ravl.Sgx.Compress.Chain.{IsConverted, compress-layout, compress_steps}

shorten_lem :
    (b b' : Bytes) (n k : ℕ)
    → number_at b 432 4 ≡ ok n
    → 0 < k
    → k < n
    → overwrite b 432 (cell (n - k)) ≡ ok b'
    → shorten_signature b k ≡ ok b'
unfolding shorten_signature
shorten_lem b b' n k e some less w = ground (arith, e, some, less, w)

resize_lem : (b : Bytes) (n : ℕ) → n ≤ length b → resize b n ≡ ok (take n b)
unfolding resize
resize_lem b n h = ground (arith, h)

-- A quote with its chain in DER, which OpenSSL prints as `pem` and reads back from it.
module _ (take_der take_pem : Bytes → Result (Bytes × Bytes)) (p : Parts) (pem der : Bytes)
    (is : IsQuote p) (printed : to_pem take_pem der ≡ ok pem) (c : IsConverted take_der pem der)
    (fits : signature_len p pem < 2 ^ 32) (room : length pem ≤ 2 * length der) where
  abbrev n : ℕ
  n = signature_len p der

  abbrev quote : Bytes
  quote = layout p n der []

  -- What is cut off.
  abbrev k : ℕ
  k = length pem - length der

  abbrev left : ℕ
  left = length quote - k

  size : length quote ≡ 1020 + length p.auth_data + length der
  size = omega (arith, length-layout p is n der [])

  unchanged : layout p n der (drop (length der) der ++ []) ≡ quote
  unchanged =
      let none_left : drop (length der) (der ++ []) ≡ [] = drop-length der [] in
      let e : drop (length der) der ≡ [] = rw (append-nil der) at none_left in
      ap (λ l. layout p n der (l ++ [])) e

  abbrev tail : Bytes
  tail =
      p.fixed
      ++ (half (length p.auth_data)
          ++ (p.auth_data ++ ((5 ∷ 0 ∷ []) ++ (cell (length der) ++ (der ++ [])))))

  -- The first bytes of the quote, with the signature's length that is written last.
  cut_quote : (m : ℕ) → take left (layout p m der []) ≡ (p.head ++ cell m) ++ take (left - 436) tail
  cut_quote m =
      let whole : layout p m der [] ≡ (p.head ++ cell m) ++ tail = simp append_assoc in
      ap (λ b. take left b) whole
      ∙ take-append (p.head ++ cell m) tail left (left - 436)
          (omega (arith, size, room, is.head, length-append p.head (cell m)))

  read_at : (o : ℕ) → o + 4 ≤ left → number_at (take left quote) o 4 ≡ number_at quote o 4
  read_at o h = number_at-take quote left o 4 (omega arith) h

  shortened : shorten_signature (take left quote) k ≡ ok (take left (layout p (n - k) der []))
  shortened =
      let small : n < 2 ^ 32 = omega (arith, c.smaller, fits) in
      let written =
        overwrite-append (take left quote) p.head (cell n) (take (left - 436) tail) (cell (n - k))
          432 (cut_quote n ∙ append_assoc p.head (cell n) (take (left - 436) tail)) (sym is.head)
          refl in
      let again : p.head ++ (cell (n - k) ++ take (left - 436) tail)
          ≡ take left (layout p (n - k) der []) =
        sym (cut_quote (n - k) ∙ append_assoc p.head (cell (n - k)) (take (left - 436) tail)) in
      shorten_lem (take left quote) _ n k
        (read_at 432 (omega (arith, size, room)) ∙ signature_len_at p is n der [] small)
        (omega (arith, c.smaller)) (omega (arith, room)) (written ∙ ap ok again)

  compressed :
      compress_pck_certificate_chain take_der take_pem quote true
      ≡ ok (take left (layout p (n - k) der []))
  compressed =
      let small : n < 2 ^ 32 = omega (arith, c.smaller, fits) in
      let some : 0 < length der = omega (arith, c.long, room) in
      let parsed =
        parse_signature_data-layout p is n der [] small take_pem some
          (omega (arith, c.smaller, c.short))
        ∙ ap (λ (t : Result Bytes). t >>= (λ x. ok (found (length p.auth_data) x))) printed in
      let cut : resize quote ((length quote + size_mod - k) % size_mod) ≡ ok (take left quote) =
        ap (λ m. resize quote m) (wrapped size is.short_auth_data c.smaller c.short)
        ∙ resize_lem quote left (omega arith) in
      let rewritten =
        compress-layout take_der p is n der pem der c (omega arith) [] true
        ∙ ap (λ b. resize b ((length b + size_mod - k) % size_mod) >>= (λ x. ok (x, k))) unchanged
        ∙ ap (λ (t : Result Bytes). t >>= (λ x. ok (x, k))) cut in
      compress_steps take_der take_pem quote (take left quote) _ (record { offset = 0; size = 432 })
        (found (length p.auth_data) pem) k true
        (parse_quote-layout p is n der [] small (omega (arith, size))) parsed rewritten shortened
    where
      wrapped :
          length quote ≡ 1020 + length p.auth_data + length der
          → length p.auth_data < 2 ^ 16
          → length der < length pem
          → length pem < 2 ^ 32
          → (length quote + size_mod - k) % size_mod ≡ left
      wrapped e₁ e₂ e₃ e₄ = omega (arith, e₁, e₂, e₃, e₄, room)

  -- A quote whose chain is in DER already, as it is behind an earlier call: the call returns
  -- evidence that has lost as many bytes at its end as the chain is larger in PEM, and that no
  -- longer can be parsed. (The text is at most twice as large as what it encodes.)
  pub compress-layout_der :
      (compress_pck_certificate_chain take_der take_pem (layout p (signature_len p der) der []) true
        ≡ ok (
            take
              (length (layout p (signature_len p der) der []) - (length pem - length der))
              (layout p (signature_len p der - (length pem - length der)) der [])))
      × ((compress_pck_certificate_chain take_der take_pem
              (layout p (signature_len p der) der [])
              true
            >>= (λ b. parse_signature_data take_pem (record { offset = 0; size = 432 }) b))
          ≡ err (runtime_error "invalid pointer"))
  compress-layout_der = (compressed, rw compressed unparsed)
    where
      unparsed :
          parse_signature_data take_pem
            (record { offset = 0; size = 432 })
            (take left (layout p (n - k) der []))
          ≡ err (runtime_error "invalid pointer")
      unparsed =
          let small : n - k < 2 ^ 32 = omega (arith, c.smaller, fits) in
          let whole = length-layout p is (n - k) der [] in
          let cut = length-take left (layout p (n - k) der []) in
          parse_signature_data_short take_pem (take left (layout p (n - k) der []))
            (length p.auth_data) (length der) (omega (arith, whole, cut, size, room))
            (number_at-take (layout p (n - k) der []) left 1012 2 (omega (arith, whole, size))
                (omega (arith, size, room))
              ∙ auth_size_at p is (n - k) der [] small)
            (number_at-take (layout p (n - k) der []) left (1014 + length p.auth_data + 2) 4
                (omega (arith, whole, size)) (omega (arith, size, room))
              ∙ cert_size_at p is (n - k) der [] small (omega (arith, c.smaller, c.short)))
            is.some_auth_data (omega (arith, c.long, room))
            (omega (arith, whole, cut, size, c.smaller, room))
