-- ===== src/OpenEnclave/Endorsements/Table.antt =====
-- A table in Open Enclave's layout, or bytes that start like one: what the loop reads from them.
use ravl.Prelude.{
  ℕ, suc, ◌+◌, ◌-◌, ◌*◌, ◌%◌, ◌^◌, ◌<◌, ◌≤◌, ◌≡◌, refl, ap, ◌∙◌, List, [], ◌∷◌, ◌++◌, some, Bytes,
  length, arith, length-append, get_elem?, append-nil,
}
use ravl.Result.{ok}
use ravl.Sgx.Layout.{cell, bytes_at, number_at}
use ravl.Sgx.Collateral.{Collateral}
use ravl.OpenEnclave.Endorsements.{
  Items, no_items, offset_at, item_size_at, store_element, read_item, read_items, read_table,
}
use ravl.OpenEnclave.Endorsements.Layout.{
  cells, joined, starts, number_at-cells, bytes_at-joined, length-cells,
}

abbrev pub header : List Bytes → List ℕ
header xs = 1 ∷ 2 ∷ (4 * length xs + length (joined xs)) ∷ length xs ∷ []

-- The header, the offsets and the items.
unfoldable pub encode_table : List Bytes → Bytes
encode_table xs = cells (header xs) ++ (cells (starts 0 xs) ++ joined xs)

-- The items of a collateral, with the date that is ignored.
abbrev pub items_of : Collateral → Bytes → List Bytes
items_of c date =
    cell 1
    ∷ c.tcb_info
    ∷ c.tcb_info_issuer_chain
    ∷ c.pck_crl
    ∷ c.root_ca_crl
    ∷ c.pck_crl_issuer_chain
    ∷ c.qe_identity
    ∷ c.qe_identity_issuer_chain
    ∷ date
    ∷ []

pub length-starts : (xs : List Bytes) (o : ℕ) → length (starts o xs) ≡ length xs
length-starts [] o = refl
length-starts (x ∷ xs) o = ap suc (length-starts xs (o + length x))

module _ (xs : List Bytes) (size : ℕ) (same : length (joined xs) ≡ size)
    (short : 4 * length xs + size < 2 ^ 32) where
  start_at :
      (i s : ℕ)
      → get_elem? (starts 0 xs) i ≡ some s
      → s < 2 ^ 32
      → offset_at (encode_table xs) i ≡ ok s
  unfolding encode_table
  start_at i s e h =
      number_at-cells (starts 0 xs) (cells (header xs)) (joined xs) i s e h (16 + 4 * i) refl

  header_at :
      (i n : ℕ)
      → get_elem? (header xs) i ≡ some n
      → n < 2 ^ 32
      → number_at (encode_table xs) (4 * i) 4 ≡ ok n
  unfolding encode_table
  header_at i n e h =
      number_at-cells (header xs) [] (cells (starts 0 xs) ++ joined xs) i n e h (4 * i)
        (omega arith)

  pub item_at :
      (i s : ℕ) (x : Bytes)
      → get_elem? xs i ≡ some x
      → get_elem? (starts 0 xs) i ≡ some s
      → bytes_at (encode_table xs) (16 + 4 * length xs + s) (length x) ≡ ok x
  unfolding encode_table
  item_at i s x e f =
      let place =
        bytes_at-joined xs (cells (header xs) ++ cells (starts 0 xs)) [] 0 i s x e f
          (16 + 4 * length xs + s)
          (omega (
            arith,
            length-append (cells (header xs)) (cells (starts 0 xs)),
            length-cells (starts 0 xs),
            length-starts xs 0,
          )) in
      rw (append-nil (joined xs)) at place

  -- Bytes with the same numbers up to byte 108.
  module _ (b : Bytes)
      (agree : (o : ℕ) → o < 105 → number_at b o 4 ≡ number_at (encode_table xs) o 4)
      (few : length xs < 20) where
    start_in :
        (i s : ℕ) → i < 20 → get_elem? (starts 0 xs) i ≡ some s → s < 2 ^ 32 → offset_at b i ≡ ok s
    start_in i s low e h = agree (16 + 4 * i) (omega (arith, low)) ∙ start_at i s e h

    pub header_in :
        (i n : ℕ)
        → i < 20
        → get_elem? (header xs) i ≡ some n
        → n < 2 ^ 32
        → number_at b (4 * i) 4 ≡ ok n
    header_in i n low e h = agree (4 * i) (omega (arith, low)) ∙ header_at i n e h

    -- The item between two offsets, and the last one.
    pub read_between :
        (i s t : ℕ) (x : Bytes) (c : Items)
        → get_elem? xs i ≡ some x
        → get_elem? (starts 0 xs) i ≡ some s
        → get_elem? (starts 0 xs) (i + 1) ≡ some t
        → s + length x ≡ t
        → t < size
        → i + 1 < length xs
        → read_item b (length xs) size i c ≡ store_element b i (16 + 4 * length xs + s) (length x) c
    unfolding read_item item_size_at
    read_between i s t x c e f g sum below more = ground (
      arith,
      start_in i s (omega arith) f (omega (arith, sum, below, short)),
      start_in (i + 1) t (omega arith) g (omega (arith, below, short)),
    )

    pub read_last :
        (i s : ℕ) (x : Bytes) (c : Items)
        → get_elem? xs i ≡ some x
        → get_elem? (starts 0 xs) i ≡ some s
        → s + length x ≡ size
        → 0 < length x
        → i + 1 ≡ length xs
        → read_item b (length xs) size i c ≡ store_element b i (16 + 4 * length xs + s) (length x) c
    unfolding read_item item_size_at
    read_last i s x c e f sum below last =
        ground (arith, start_in i s (omega arith) f (omega (arith, sum, below, short)))

data_size_lem :
    (n size : ℕ) → 4 * n + size < 2 ^ 32 → (4 * n + size + 2 ^ 64 - 4 * n) % 2 ^ 64 ≡ size
data_size_lem n size h = omega (arith, h)

pub read_table_lem :
    (bytes : Bytes) (n size : ℕ) (c : Items)
    → 108 ≤ length bytes
    → 4 * n + size < 2 ^ 32
    → number_at bytes 0 4 ≡ ok 1
    → number_at bytes 4 4 ≡ ok 2
    → number_at bytes 8 4 ≡ ok (4 * n + size)
    → number_at bytes 12 4 ≡ ok n
    → read_items bytes n size n 0 no_items ≡ ok c
    → read_table bytes ≡ ok c
unfolding read_table
read_table_lem bytes n size c long room e₀ e₁ e₂ e₃ e =
    rw (e₀, e₁, e₂, e₃, data_size_lem n size room, e)
      (ground (arith, long, e₀, e₁, e₂, e₃, data_size_lem n size room, e))
