-- ===== src/OpenEnclave/Endorsements/RoundTrip.antt =====
-- A table in Open Enclave's layout is extracted to the layout of the same collateral, and one that
-- is cut short is read behind its end.
use ravl.Prelude.{
  ℕ, suc, ◌+◌, ◌*◌, ◌^◌, ◌<◌, ◌≤◌, ◌≡◌, refl, ap, ◌∙◌, ◌++◌, some, Bytes, length, arith,
  length-append, get_elem?, take, drop, length-take,
}
use ravl.Result.{Result, ok, undefined, ◌>>=◌}
use ravl.Util.Cursor.{put}
use ravl.Sgx.Layout.Parts.{number_at-take}
use ravl.Sgx.Layout.{cell, Span, bytes_at, number_at}
use ravl.Sgx.Collateral.{Collateral}
use ravl.Sgx.Collateral.RoundTrip.{encode}
use ravl.OpenEnclave.Endorsements.{
  Items, as_item, no_items, store_item, store_element, read_items, read_table, put_item, put_items,
  extract_collateral,
}
use ravl.OpenEnclave.Endorsements.Layout.{joined, starts}
use ravl.OpenEnclave.Endorsements.Table.{
  encode_table, items_of, item_at, header_in, read_between, read_last, read_table_lem,
}

put_item_then :
    (bytes : Bytes) (s : Span) (rest : Bytes → Result Bytes)
    → ((x : Bytes) → rest x ≡ undefined)
    → (put_item bytes s >>= rest) ≡ undefined
unfolding put_item bytes_at
put_item_then bytes s rest h = ground (arith, h (put 8 s.size ++ take s.size (drop s.offset bytes)))

put_item_beyond :
    (bytes : Bytes) (s : Span) → length bytes < s.offset + s.size → put_item bytes s ≡ undefined
unfolding put_item bytes_at
put_item_beyond bytes s h = ground (arith, h)

module _ (c : Collateral) (date : Bytes) (dated : 0 < length date)
    (short : length (encode_table (items_of c date)) < 2 ^ 32) where
  abbrev table : Bytes
  table = encode_table (items_of c date)

  abbrev span_at : ℕ → ℕ → Span
  span_at start size = record { offset = 52 + start; size = size }

  -- Where the items start.
  abbrev s₂ : ℕ
  s₂ = 4 + length c.tcb_info

  abbrev s₃ : ℕ
  s₃ = s₂ + length c.tcb_info_issuer_chain

  abbrev s₄ : ℕ
  s₄ = s₃ + length c.pck_crl

  abbrev s₅ : ℕ
  s₅ = s₄ + length c.root_ca_crl

  abbrev s₆ : ℕ
  s₆ = s₅ + length c.pck_crl_issuer_chain

  abbrev s₇ : ℕ
  s₇ = s₆ + length c.qe_identity

  abbrev s₈ : ℕ
  s₈ = s₇ + length c.qe_identity_issuer_chain

  abbrev items_found : Items
  items_found = record {
    pck_crl_issuer_chain = span_at s₅ (length c.pck_crl_issuer_chain);
    root_ca_crl = span_at s₄ (length c.root_ca_crl);
    pck_crl = span_at s₃ (length c.pck_crl);
    tcb_info_issuer_chain = span_at s₂ (length c.tcb_info_issuer_chain);
    tcb_info = span_at 4 (length c.tcb_info);
    qe_identity_issuer_chain = span_at s₇ (length c.qe_identity_issuer_chain);
    qe_identity = span_at s₆ (length c.qe_identity);
  }

  abbrev size : ℕ
  size = s₈ + length date

  size_lem : length (joined (items_of c date)) ≡ size
  size_lem = simp length-append (omega arith)

  room : 4 * 9 + size < 2 ^ 32
  unfolding encode_table
  room = omega (arith, short, size_lem)

  length_lem : length table ≡ 52 + size
  unfolding encode_table
  length_lem = omega (arith, size_lem)

  version_found : number_at table 52 4 ≡ ok 1
  unfolding number_at
  version_found =
      ground (arith, item_at (items_of c date) size size_lem room 0 0 (cell 1) refl refl)

  item_whole : (offset n : ℕ) → n < size → as_item offset n ≡ record { offset = offset; size = n }
  item_whole offset n h = ground (arith, room)

  -- Bytes with the same header and offsets.
  module _ (b : Bytes) (agree : (o : ℕ) → o < 105 → number_at b o 4 ≡ number_at table o 4)
      (long : 108 ≤ length b) where
    -- One round that stores an item, below the last.
    stored :
        (k i s t : ℕ) (x : Bytes) (c₁ c₂ : Items)
        → get_elem? (items_of c date) i ≡ some x
        → get_elem? (starts 0 (items_of c date)) i ≡ some s
        → get_elem? (starts 0 (items_of c date)) (i + 1) ≡ some t
        → s + length x ≡ t
        → t < size
        → i + 1 < 9
        → store_element b i (52 + s) (length x) c₁ ≡ ok c₂
        → read_items b 9 size (suc k) i c₁ ≡ read_items b 9 size k (i + 1) c₂
    unfolding read_items
    stored k i s t x c₁ c₂ e f g sum below more put =
        rw
          (
            read_between (items_of c date) size size_lem room b agree (omega arith) i s t x c₁ e f g
                sum below more,
            put,
          )
          refl

    stored_last : (c₁ : Items) → read_items b 9 size 1 8 c₁ ≡ ok c₁
    unfolding read_items store_element store_item
    stored_last c₁ =
        rw
          (read_last (items_of c date) size size_lem room b agree (omega arith) 8 s₈ date c₁ refl
            refl refl dated refl)
          refl

    read_items_found : read_items b 9 size 9 0 no_items ≡ ok items_found
    unfolding store_element store_item
    read_items_found =
        let c₁ : Items = no_items in
        let c₂ : Items = record c₁ { tcb_info = span_at 4 (length c.tcb_info) } in
        let c₃ : Items = record c₂ {
          tcb_info_issuer_chain = span_at s₂ (length c.tcb_info_issuer_chain);
        } in
        let c₄ : Items = record c₃ { pck_crl = span_at s₃ (length c.pck_crl) } in
        let c₅ : Items = record c₄ { root_ca_crl = span_at s₄ (length c.root_ca_crl) } in
        let c₆ : Items = record c₅ {
          pck_crl_issuer_chain = span_at s₅ (length c.pck_crl_issuer_chain);
        } in
        let c₇ : Items = record c₆ { qe_identity = span_at s₆ (length c.qe_identity) } in
        let c₈ : Items = record c₇ {
          qe_identity_issuer_chain = span_at s₇ (length c.qe_identity_issuer_chain);
        } in
        stored 8 0 0 4 (cell 1) c₁ c₁ refl refl refl refl (omega (arith, dated)) (omega arith)
          (ground (arith, agree 52 (omega arith), version_found))
        ∙ stored 7 1 4 s₂ c.tcb_info c₁ c₂ refl refl refl refl (omega (arith, dated)) (omega arith)
            (ap (λ s. ok (record c₁ { tcb_info = s }))
              (item_whole _ (length c.tcb_info) (omega (arith, dated))))
        ∙ stored 6 2 s₂ s₃ c.tcb_info_issuer_chain c₂ c₃ refl refl refl refl (omega (arith, dated))
            (omega arith)
            (ap (λ s. ok (record c₂ { tcb_info_issuer_chain = s }))
              (item_whole _ (length c.tcb_info_issuer_chain) (omega (arith, dated))))
        ∙ stored 5 3 s₃ s₄ c.pck_crl c₃ c₄ refl refl refl refl (omega (arith, dated)) (omega arith)
            (ap (λ s. ok (record c₃ { pck_crl = s }))
              (item_whole _ (length c.pck_crl) (omega (arith, dated))))
        ∙ stored 4 4 s₄ s₅ c.root_ca_crl c₄ c₅ refl refl refl refl (omega (arith, dated))
            (omega arith)
            (ap (λ s. ok (record c₄ { root_ca_crl = s }))
              (item_whole _ (length c.root_ca_crl) (omega (arith, dated))))
        ∙ stored 3 5 s₅ s₆ c.pck_crl_issuer_chain c₅ c₆ refl refl refl refl (omega (arith, dated))
            (omega arith)
            (ap (λ s. ok (record c₅ { pck_crl_issuer_chain = s }))
              (item_whole _ (length c.pck_crl_issuer_chain) (omega (arith, dated))))
        ∙ stored 2 6 s₆ s₇ c.qe_identity c₆ c₇ refl refl refl refl (omega (arith, dated))
            (omega arith)
            (ap (λ s. ok (record c₆ { qe_identity = s }))
              (item_whole _ (length c.qe_identity) (omega (arith, dated))))
        ∙ stored 1 7 s₇ s₈ c.qe_identity_issuer_chain c₇ c₈ refl refl refl refl
            (omega (arith, dated)) (omega arith)
            (ap (λ s. ok (record c₇ { qe_identity_issuer_chain = s }))
              (item_whole _ (length c.qe_identity_issuer_chain) (omega (arith, dated))))
        ∙ stored_last items_found

    read_table_found : read_table b ≡ ok items_found
    read_table_found =
        let header = header_in (items_of c date) size size_lem room b agree (omega arith) in
        read_table_lem b 9 size items_found long room (header 0 1 (omega arith) refl (omega arith))
          (header 1 2 (omega arith) refl (omega arith))
          (header 2 (4 * 9 + size) (omega arith) (ap (λ j. some (4 * 9 + j)) size_lem)
            (omega (arith, room)))
          (header 3 9 (omega arith) refl (omega arith)) read_items_found

  -- A collateral in Open Enclave's layout, with a date: what is extracted is the SGX layout of the
  -- collateral.
  pub extract_collateral-encode_table :
      108 ≤ length (encode_table (items_of c date))
      → c.major_version ≡ 3
      → c.minor_version ≡ 1
      → c.tee_type ≡ 0
      → extract_collateral (encode_table (items_of c date)) ≡ ok (encode c)
  unfolding extract_collateral put_items put_item
  extract_collateral-encode_table long e₁ e₂ e₃ =
      let item = item_at (items_of c date) size size_lem room in
      ground (
        arith,
        read_table_found table (λ o h. refl) long,
        item 1 4 c.tcb_info refl refl,
        item 2 s₂ c.tcb_info_issuer_chain refl refl,
        item 3 s₃ c.pck_crl refl refl,
        item 4 s₄ c.root_ca_crl refl refl,
        item 5 s₅ c.pck_crl_issuer_chain refl refl,
        item 6 s₆ c.qe_identity refl refl,
        item 7 s₇ c.qe_identity_issuer_chain refl refl,
      )

  -- The same table, cut short before the end of its last certificate chain, but not below the size
  -- of an `oe_sgx_endorsements_t`: the code reads behind the end of the endorsements.
  extract_collateral_cut :
      (k : ℕ)
      → 108 ≤ k
      → k < 52 + s₈
      → extract_collateral (take k (encode_table (items_of c date))) ≡ undefined
  unfolding extract_collateral put_items
  extract_collateral_cut k enough cut =
      let b = take k table in
      let inside : k ≤ length table = omega (arith, length_lem, cut) in
      let size_b : length b ≡ k = omega (arith, length-take k table, inside) in
      let found =
        read_table_found b (λ o h. number_at-take table k o 4 inside (omega (arith, h, enough)))
          (omega (arith, size_b, enough)) in
      rw found (
        put_item_then b _ _ (λ x₁. put_item_then b _ _ (λ x₂. put_item_then b _ _ (λ x₃.
          put_item_then b _ _ (λ x₄. put_item_then b _ _ (λ x₅.
            rw
              (put_item_beyond b (span_at s₇ (length c.qe_identity_issuer_chain))
                (omega (arith, size_b, cut)))
              refl))))))
