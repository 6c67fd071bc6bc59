-- ===== src/OpenEnclave/Endorsements.antt =====
-- The endorsements in `extract_sgx_attestation` of include/ravl/oe_impl.h: the items of Open
-- Enclave's table become collateral in the layout that the SGX attestation reads.
pub mod Collateral
pub mod Layout
pub mod Table
pub mod RoundTrip
use ravl.Prelude.{
  ℕ, zero, suc, ◌+◌, ◌-◌, ◌*◌, ◌%◌, ◌^◌, Bool, true, false, not, ◌&&◌, ◌||◌, List, [], ◌∷◌, ◌++◌,
  Option, none, some, Bytes, length, get_elem?, ltb, leb, ◌==◌, if◌then◌else◌,
}
use ravl.Result.{Result, ok, err, runtime_error, throw_if, ◌>>=◌, ◌>>◌}
use ravl.Util.Cursor.{put}
use ravl.Sgx.Layout.{Span, bytes_at, number_at}

-- The pointers and sizes of `sgx_ql_qve_collateral_t` that the loop sets. A pointer is an offset
-- from the first byte of the endorsements; the sizes are `uint32_t`.
pub record Items : Type 0 where
  pub pck_crl_issuer_chain : Span
  pub root_ca_crl : Span
  pub pck_crl : Span
  pub tcb_info_issuer_chain : Span
  pub tcb_info : Span
  pub qe_identity_issuer_chain : Span
  pub qe_identity : Span

-- A null pointer with size 0: none of its bytes are read.
abbrev pub no_item : Span
no_item = record { offset = 0; size = 0 }

-- `sgx_ql_qve_collateral_t sgxcol = {};`
abbrev pub no_items : Items
no_items = record {
  pck_crl_issuer_chain = no_item;
  root_ca_crl = no_item;
  pck_crl = no_item;
  tcb_info_issuer_chain = no_item;
  tcb_info = no_item;
  qe_identity_issuer_chain = no_item;
  qe_identity = no_item;
}

-- A `size_t` stored in a `uint32_t`.
abbrev pub as_item : ℕ → ℕ → Span
as_item offset item_size = record { offset = offset; size = item_size % 2 ^ 32 }

-- `oe_sgx_endorsements_fields_t`, in the order of its values.
pub data Field : Type 0 where
  field_version field_tcb_info field_tcb_issuer_chain : Field
  field_crl_pck_cert field_crl_pck_proc_ca field_crl_issuer_chain_pck_cert : Field
  field_qe_id_info field_qe_id_issuer_chain field_creation_datetime : Field

abbrev pub fields : List Field
fields =
    field_version ∷ field_tcb_info ∷ field_tcb_issuer_chain ∷ field_crl_pck_cert
    ∷ field_crl_pck_proc_ca ∷ field_crl_issuer_chain_pck_cert ∷ field_qe_id_info
    ∷ field_qe_id_issuer_chain ∷ field_creation_datetime ∷ []

abbrev pub check_version : Bytes → ℕ → ℕ → Result (Unit {0})
check_version bytes item item_size =
    if not (item_size == 4)
    then err (runtime_error "unsupported version of OE endorsements data structure")
    else number_at bytes item 4 >>= (λ version.
      throw_if (not (version == 1)) "unsupported version of OE endorsements data structure")

-- The cases of the switch, for the item of `item_size` bytes at `item`.
unfoldable pub store_item : Bytes → ℕ → ℕ → Items → Field → Result Items
store_item bytes item item_size c field_version = check_version bytes item item_size >> ok c
store_item bytes item item_size c field_tcb_info =
    ok (record c { tcb_info = as_item item item_size })
store_item bytes item item_size c field_tcb_issuer_chain =
    ok (record c { tcb_info_issuer_chain = as_item item item_size })
store_item bytes item item_size c field_crl_pck_cert =
    ok (record c { pck_crl = as_item item item_size })
store_item bytes item item_size c field_crl_pck_proc_ca =
    ok (record c { root_ca_crl = as_item item item_size })
store_item bytes item item_size c field_crl_issuer_chain_pck_cert =
    ok (record c { pck_crl_issuer_chain = as_item item item_size })
store_item bytes item item_size c field_qe_id_info =
    ok (record c { qe_identity = as_item item item_size })
store_item bytes item item_size c field_qe_id_issuer_chain =
    ok (record c { qe_identity_issuer_chain = as_item item item_size })
store_item bytes item item_size c field_creation_datetime = ok c

-- `switch (i)`
unfoldable pub store_element : Bytes → ℕ → ℕ → ℕ → Items → Result Items
unfolding store_item
store_element bytes i item item_size c = elim (get_elem? fields i) [
  | none ↦ err (runtime_error "excess elements in OE endorsements data")
  | some f ↦ store_item bytes item item_size c f
]

-- `offsets[i]`, in the buffer that starts at byte 16.
abbrev pub offset_at : Bytes → ℕ → Result ℕ
offset_at bytes i = number_at bytes (16 + 4 * i) 4

-- The difference of the offsets is a `uint32_t`; the last item reaches to the end of the data.
unfoldable pub item_size_at : Bytes → ℕ → ℕ → ℕ → ℕ → Result ℕ
item_size_at bytes num_elements data_size i offset =
    if ltb i (num_elements - 1)
    then offset_at bytes (i + 1) >>= (λ next. ok ((next + 2 ^ 32 - offset) % 2 ^ 32))
    else ok (data_size - offset)

-- The body of the loop; the data starts behind the offsets.
unfoldable pub read_item : Bytes → ℕ → ℕ → ℕ → Items → Result Items
unfolding item_size_at store_element
read_item bytes num_elements data_size i c = do
  offset ← offset_at bytes i
  throw_if (leb data_size offset) "invalid endorsement item offset"
  item_size ← item_size_at bytes num_elements data_size i offset
  store_element bytes i (16 + 4 * num_elements + offset) item_size c

-- The loop with `k` of its rounds left.
unfoldable pub read_items : Bytes → ℕ → ℕ → ℕ → ℕ → Items → Result Items
unfolding read_item
read_items bytes num_elements data_size zero i c = ok c
read_items bytes num_elements data_size (suc k) i c = do
  c' ← read_item bytes num_elements data_size i c
  read_items bytes num_elements data_size k (i + 1) c'

-- `put(s.size(), scollateral)` and the bytes of `s` behind it.
unfoldable pub put_item : Bytes → Span → Result Bytes
put_item bytes s = do item ← bytes_at bytes s.offset s.size; ok (put 8 s.size ++ item)

-- Version 3.1 for SGX, and the strings in the order of the collateral.
unfoldable pub put_items : Bytes → Items → Result Bytes
unfolding put_item
put_items bytes c = do
  pck_crl_issuer_chain ← put_item bytes c.pck_crl_issuer_chain
  root_ca_crl ← put_item bytes c.root_ca_crl
  pck_crl ← put_item bytes c.pck_crl
  tcb_info_issuer_chain ← put_item bytes c.tcb_info_issuer_chain
  tcb_info ← put_item bytes c.tcb_info
  qe_identity_issuer_chain ← put_item bytes c.qe_identity_issuer_chain
  qe_identity ← put_item bytes c.qe_identity
  ok (
      put 2 3
      ++ (put 2 1
          ++ (put 4 0
              ++ (pck_crl_issuer_chain
                  ++ (root_ca_crl
                      ++ (pck_crl
                          ++ (tcb_info_issuer_chain
                              ++ (tcb_info ++ (qe_identity_issuer_chain ++ qe_identity)))))))))

-- The table: its items, with `size_t data_size = oeendo->buffer_size - offsets_size`.
unfoldable pub read_table : Bytes → Result Items
unfolding read_items
read_table bytes = do
  throw_if (ltb (length bytes) 16 || ltb (length bytes) 108)
      "Unknown endorsements format: too small to contain OE/SGX endorsements"
  version ← number_at bytes 0 4
  throw_if (not (version == 1)) "unsupported version of OE endorsements data structure"
  enclave_type ← number_at bytes 4 4
  throw_if (not (enclave_type == 2)) "unsupported enclave type in OE endorsements"
  num_elements ← number_at bytes 12 4
  buffer_size ← number_at bytes 8 4
  read_items bytes num_elements ((buffer_size + 2 ^ 64 - 4 * num_elements) % 2 ^ 64) num_elements 0
      no_items

-- `scollateral`, for endorsements that are not empty.
unfoldable pub extract_collateral : Bytes → Result Bytes
unfolding read_table put_items
extract_collateral bytes = do c ← read_table bytes; put_items bytes c
