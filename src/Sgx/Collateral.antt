-- ===== src/Sgx/Collateral.antt =====
-- `QL_QVE_Collateral` of include/ravl/sgx_impl.h: the endorsements of an SGX attestation.
pub mod RoundTrip
use ravl.Prelude.{ℕ, [], Bytes, not, length, ◌==◌}
use ravl.Result.{Result, ok, throw_if, ◌>>=◌, ◌>>◌}
use ravl.Util.Cursor.{get, get_n}

pub record Collateral : Type 0 where
  pub major_version : ℕ
  pub minor_version : ℕ
  pub tee_type : ℕ
  pub root_ca : Bytes
  pub pck_crl_issuer_chain : Bytes
  pub root_ca_crl : Bytes
  pub pck_crl : Bytes
  pub tcb_info_issuer_chain : Bytes
  pub tcb_info : Bytes
  pub qe_identity_issuer_chain : Bytes
  pub qe_identity : Bytes

-- The default constructor.
abbrev pub new_collateral : Collateral
new_collateral = record {
  major_version = 3;
  minor_version = 1;
  tee_type = 0;
  root_ca = [];
  pck_crl_issuer_chain = [];
  root_ca_crl = [];
  pck_crl = [];
  tcb_info_issuer_chain = [];
  tcb_info = [];
  qe_identity_issuer_chain = [];
  qe_identity = [];
}

-- `n = get<uint64_t>(data, pos); t = get_n(data, n, pos);`
unfoldable pub get_field : Bytes → ℕ → Result (Bytes × ℕ)
get_field bytes pos = do (n, pos) ← get 8 bytes pos; get_n bytes n pos

-- The constructor from the endorsements' bytes.
unfoldable pub parse_collateral : Bytes → Result Collateral
parse_collateral bytes = do
  (major_version, p₁) ← get 2 bytes 0
  (minor_version, p₂) ← get 2 bytes p₁
  (tee_type, p₃) ← get 4 bytes p₂
  (pck_crl_issuer_chain, p₄) ← get_field bytes p₃
  (root_ca_crl, p₅) ← get_field bytes p₄
  (pck_crl, p₆) ← get_field bytes p₅
  (tcb_info_issuer_chain, p₇) ← get_field bytes p₆
  (tcb_info, p₈) ← get_field bytes p₇
  (qe_identity_issuer_chain, p₉) ← get_field bytes p₈
  (qe_identity, pos) ← get_field bytes p₉
  throw_if (not (pos == length bytes)) "excess collateral data"
  ok (record {
    major_version = major_version;
    minor_version = minor_version;
    tee_type = tee_type;
    root_ca = [];
    pck_crl_issuer_chain = pck_crl_issuer_chain;
    root_ca_crl = root_ca_crl;
    pck_crl = pck_crl;
    tcb_info_issuer_chain = tcb_info_issuer_chain;
    tcb_info = tcb_info;
    qe_identity_issuer_chain = qe_identity_issuer_chain;
    qe_identity = qe_identity;
  })
