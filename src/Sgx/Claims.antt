-- ===== src/Sgx/Claims.antt =====
-- The claims of include/ravl/sgx.h, and `make_report_body_claims` and `make_claims` of
-- include/ravl/sgx_impl.h.
use ravl.Prelude.{ℕ, ◌+◌, Option, none, some, Bytes}
use ravl.Result.{Result, ok, ◌>>=◌}
use ravl.Sgx.Collateral.{Collateral}
use ravl.Sgx.Layout.{Span, bytes_at, number_at, quote_size}
use ravl.Sgx.Quote.{SignatureData}

pub record ReportAttributes : Type 0 where
  pub flags : ℕ
  pub xfrm : ℕ

pub record ReportBody : Type 0 where
  pub cpu_svn : Bytes
  pub misc_select : ℕ
  pub isv_ext_prod_id : Bytes
  pub attributes : ReportAttributes
  pub mr_enclave : Bytes
  pub mr_signer : Bytes
  pub config_id : Bytes
  pub isv_prod_id : ℕ
  pub isv_svn : ℕ
  pub config_svn : ℕ
  pub isv_family_id : Bytes
  pub report_data : Bytes

pub record SignatureClaims : Type 0 where
  pub signature : Bytes
  pub attest_pub_key : Bytes
  pub qe_report : ReportBody
  pub qe_report_sig : Bytes
  pub auth_data : Bytes

-- `Endorsements` has the fields of the collateral; a partial verification leaves them unset.
pub record Claims : Type 0 where
  pub version : ℕ
  pub sign_type : ℕ
  pub epid_group_id : Bytes
  pub qe_svn : ℕ
  pub pce_svn : ℕ
  pub xeid : ℕ
  pub basename : Bytes
  pub report_body : ReportBody
  pub signature_data : SignatureClaims
  pub endorsements : Option Collateral

-- The report body at an offset of the evidence.
unfoldable pub make_report_body_claims : Bytes → ℕ → Result ReportBody
make_report_body_claims evidence offset = do
  cpu_svn ← bytes_at evidence offset 16
  misc_select ← number_at evidence (offset + 16) 4
  isv_ext_prod_id ← bytes_at evidence (offset + 32) 16
  flags ← number_at evidence (offset + 48) 8
  xfrm ← number_at evidence (offset + 56) 8
  mr_enclave ← bytes_at evidence (offset + 64) 32
  mr_signer ← bytes_at evidence (offset + 128) 32
  config_id ← bytes_at evidence (offset + 192) 64
  isv_prod_id ← number_at evidence (offset + 256) 2
  isv_svn ← number_at evidence (offset + 258) 2
  config_svn ← number_at evidence (offset + 260) 2
  isv_family_id ← bytes_at evidence (offset + 304) 16
  report_data ← bytes_at evidence (offset + 320) 64
  ok (record {
    cpu_svn = cpu_svn;
    misc_select = misc_select;
    isv_ext_prod_id = isv_ext_prod_id;
    attributes = record { flags = flags; xfrm = xfrm };
    mr_enclave = mr_enclave;
    mr_signer = mr_signer;
    config_id = config_id;
    isv_prod_id = isv_prod_id;
    isv_svn = isv_svn;
    config_svn = config_svn;
    isv_family_id = isv_family_id;
    report_data = report_data;
  })

abbrev pub span_bytes : Bytes → Span → Result Bytes
span_bytes evidence s = bytes_at evidence s.offset s.size

unfoldable pub signature_claims : Bytes → SignatureData → Result SignatureClaims
unfolding make_report_body_claims
signature_claims evidence d = do
  signature ← span_bytes evidence d.quote_signature
  attest_pub_key ← span_bytes evidence d.public_key
  qe_report ← make_report_body_claims evidence (quote_size + 128)
  qe_report_sig ← span_bytes evidence d.report_signature
  auth_data ← span_bytes evidence d.auth_data
  ok (record {
    signature = signature;
    attest_pub_key = attest_pub_key;
    qe_report = qe_report;
    qe_report_sig = qe_report_sig;
    auth_data = auth_data;
  })

-- `make_claims(raw, signature_data)`
unfoldable pub make_claims : Bytes → SignatureData → Result Claims
unfolding make_report_body_claims signature_claims
make_claims evidence d = do
  version ← number_at evidence 0 2
  sign_type ← number_at evidence 2 2
  epid_group_id ← bytes_at evidence 4 4
  qe_svn ← number_at evidence 8 2
  pce_svn ← number_at evidence 10 2
  xeid ← number_at evidence 12 4
  basename ← bytes_at evidence 16 32
  report_body ← make_report_body_claims evidence 48
  signature_data ← signature_claims evidence d
  ok (record {
    version = version;
    sign_type = sign_type;
    epid_group_id = epid_group_id;
    qe_svn = qe_svn;
    pce_svn = pce_svn;
    xeid = xeid;
    basename = basename;
    report_body = report_body;
    signature_data = signature_data;
    endorsements = none;
  })

-- The TCB information of the claims is its issuer chain.
abbrev pub endorsements_of : Collateral → Collateral
endorsements_of c = record c { tcb_info = c.tcb_info_issuer_chain }

-- `make_claims(raw, signature_data, collateral)`
unfoldable pub make_full_claims : Bytes → SignatureData → Collateral → Result Claims
unfolding make_claims
make_full_claims evidence d collateral = do
  claims ← make_claims evidence d
  ok (record claims { endorsements = some (endorsements_of collateral) })
