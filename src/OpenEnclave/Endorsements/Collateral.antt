-- ===== src/OpenEnclave/Endorsements/Collateral.antt =====
-- The collateral that is extracted is one that the SGX attestation can read.
use ravl.Prelude.{
  ℕ, ◌+◌, ◌*◌, ◌^◌, ◌<◌, ◌≤◌, ◌≡◌, refl, [], Bytes, length, arith, length-append, length-take,
  length-drop, drop,
}
use mathlib.Core.Path.{subst}
use ravl.Result.{ok, bind_returned, ok-injective}
use ravl.Util.Cursor.Reads.{length-put}
use ravl.Sgx.Layout.{Span, bytes_at}
use ravl.Sgx.Collateral.{Collateral, parse_collateral}
use ravl.Sgx.Collateral.RoundTrip.{field, encode, Fits, parse_collateral-encode}
use ravl.OpenEnclave.Endorsements.{Items, put_item, put_items, read_table, extract_collateral}

-- Version 3.1, no root certificate, and in each place the bytes that the item points to.
pub record IsExtracted (bytes : Bytes) (c : Items) (out : Collateral) : Type 0 where
  pub major_version : out.major_version ≡ 3
  pub minor_version : out.minor_version ≡ 1
  pub tee_type : out.tee_type ≡ 0
  pub root_ca : out.root_ca ≡ []
  pub pck_crl_issuer_chain :
      bytes_at bytes c.pck_crl_issuer_chain.offset c.pck_crl_issuer_chain.size
      ≡ ok out.pck_crl_issuer_chain
  pub root_ca_crl : bytes_at bytes c.root_ca_crl.offset c.root_ca_crl.size ≡ ok out.root_ca_crl
  pub pck_crl : bytes_at bytes c.pck_crl.offset c.pck_crl.size ≡ ok out.pck_crl
  pub tcb_info_issuer_chain :
      bytes_at bytes c.tcb_info_issuer_chain.offset c.tcb_info_issuer_chain.size
      ≡ ok out.tcb_info_issuer_chain
  pub tcb_info : bytes_at bytes c.tcb_info.offset c.tcb_info.size ≡ ok out.tcb_info
  pub qe_identity_issuer_chain :
      bytes_at bytes c.qe_identity_issuer_chain.offset c.qe_identity_issuer_chain.size
      ≡ ok out.qe_identity_issuer_chain
  pub qe_identity : bytes_at bytes c.qe_identity.offset c.qe_identity.size ≡ ok out.qe_identity

-- An item that was written: its bytes lie in the endorsements and stand behind their length.
record Written (bytes : Bytes) (s : Span) (out : Bytes) : Type 0 where
  item : Bytes
  read : bytes_at bytes s.offset s.size ≡ ok item
  layout : field item ≡ out
  short : length item ≤ length bytes

bytes_at-length :
    (bytes : Bytes) (offset size : ℕ) (out : Bytes)
    → bytes_at bytes offset size ≡ ok out
    → (length out ≡ size) × (size ≤ length bytes)
unfolding bytes_at
bytes_at-length bytes offset size out e =
    ground (arith, length-take size (drop offset bytes), length-drop offset bytes)

put_item-Written :
    (bytes : Bytes) (s : Span) (out : Bytes) → put_item bytes s ≡ ok out → Written bytes s out
unfolding put_item
put_item-Written bytes s out e =
    let (item, e₁, f) = bind_returned (bytes_at bytes s.offset s.size) _ e in
    let (same, fits) = bytes_at-length bytes s.offset s.size item f in
    record {
      item = item;
      read = f;
      layout = rw same (ok-injective _ _ e₁);
      short = omega (arith, same, fits);
    }

-- The largest layout: three numbers, and seven strings of the endorsements with their lengths.
encode-length :
    (c : Collateral) (n : ℕ)
    → length c.pck_crl_issuer_chain ≤ n
    → length c.root_ca_crl ≤ n
    → length c.pck_crl ≤ n
    → length c.tcb_info_issuer_chain ≤ n
    → length c.tcb_info ≤ n
    → length c.qe_identity_issuer_chain ≤ n
    → length c.qe_identity ≤ n
    → length (encode c) ≤ 64 + 7 * n
encode-length c n h₁ h₂ h₃ h₄ h₅ h₆ h₇ = simp (length-append, length-put) (omega arith)

module _ (bytes : Bytes) (c : Items) (out : Bytes) (short : length bytes < 2 ^ 59) where
  put_items-parse :
      put_items bytes c ≡ ok out
      → (col : Collateral) × IsExtracted bytes c col × (parse_collateral out ≡ ok col)
  unfolding put_items
  put_items-parse e =
      let (b₁, e₁, f₁) = bind_returned (put_item bytes c.pck_crl_issuer_chain) _ e in
      let (b₂, e₂, f₂) = bind_returned (put_item bytes c.root_ca_crl) _ e₁ in
      let (b₃, e₃, f₃) = bind_returned (put_item bytes c.pck_crl) _ e₂ in
      let (b₄, e₄, f₄) = bind_returned (put_item bytes c.tcb_info_issuer_chain) _ e₃ in
      let (b₅, e₅, f₅) = bind_returned (put_item bytes c.tcb_info) _ e₄ in
      let (b₆, e₆, f₆) = bind_returned (put_item bytes c.qe_identity_issuer_chain) _ e₅ in
      let (b₇, e₇, f₇) = bind_returned (put_item bytes c.qe_identity) _ e₆ in
      let w₁ = put_item-Written bytes _ b₁ f₁ in
      let w₂ = put_item-Written bytes _ b₂ f₂ in
      let w₃ = put_item-Written bytes _ b₃ f₃ in
      let w₄ = put_item-Written bytes _ b₄ f₄ in
      let w₅ = put_item-Written bytes _ b₅ f₅ in
      let w₆ = put_item-Written bytes _ b₆ f₆ in
      let w₇ = put_item-Written bytes _ b₇ f₇ in
      let col : Collateral = record {
        major_version = 3;
        minor_version = 1;
        tee_type = 0;
        root_ca = [];
        pck_crl_issuer_chain = w₁.item;
        root_ca_crl = w₂.item;
        pck_crl = w₃.item;
        tcb_info_issuer_chain = w₄.item;
        tcb_info = w₅.item;
        qe_identity_issuer_chain = w₆.item;
        qe_identity = w₇.item;
      } in
      let size : length (encode col) ≤ 64 + 7 * length bytes =
        encode-length col (length bytes) w₁.short w₂.short w₃.short w₄.short w₅.short w₆.short
          w₇.short in
      let fits : Fits col = record {
        major = omega arith;
        minor = omega arith;
        tee = omega arith;
        no_root = refl;
        short = omega (arith, size, short);
      } in
      let layout : encode col ≡ out =
        rw (w₁.layout, w₂.layout, w₃.layout, w₄.layout, w₅.layout, w₆.layout, w₇.layout)
          (ok-injective _ _ e₇) in
      (
        col,
        record {
          major_version = refl;
          minor_version = refl;
          tee_type = refl;
          root_ca = refl;
          pck_crl_issuer_chain = w₁.read;
          root_ca_crl = w₂.read;
          pck_crl = w₃.read;
          tcb_info_issuer_chain = w₄.read;
          tcb_info = w₅.read;
          qe_identity_issuer_chain = w₆.read;
          qe_identity = w₇.read;
        },
        subst (λ b. parse_collateral b ≡ ok col) layout (parse_collateral-encode col fits),
      )

-- Endorsements of less than 2 ^ 59 bytes from which collateral is extracted: the SGX attestation
-- reads from it, without an exception, version 3.1, no root certificate, and in each place the
-- bytes of the item that the table has for it.
pub extract_collateral-parse :
    (bytes out : Bytes)
    → length bytes < 2 ^ 59
    → extract_collateral bytes ≡ ok out
    → (c : Items) × (col : Collateral) × (read_table bytes ≡ ok c)
      × IsExtracted bytes c col
      × (parse_collateral out ≡ ok col)
unfolding extract_collateral
extract_collateral-parse bytes out short e =
    let (c, e₁, f) = bind_returned (read_table bytes) _ e in
    let (col, extracted, parsed) = put_items-parse bytes c out short e₁ in
    (c, col, f, extracted, parsed)
