-- ===== src/Snp/Claims.antt =====
-- The claims of include/ravl/sev_snp.h, and `make_claims` of include/ravl/sev_snp_impl.h. The report's
-- fields are read at their offsets in `snp::Attestation`.
use ravl.Prelude.{ℕ, List, [], ◌∷◌, ◌++◌, Option, none, some, map, Bytes}
use ravl.Result.{Result, ok, err, runtime_error, ◌>>=◌}
use ravl.Crypto.{OpenSsl}
use ravl.Sgx.Layout.{bytes_at, number_at}
use ravl.Snp.Urls.{TcbVersion, tcb_version_at}
use ravl.Snp.Responses.{EndorsementsEtc}

pub record Signature : Type 0 where
  pub r : Bytes
  pub s : Bytes

pub record Endorsements : Type 0 where
  pub root_ca_certificate : Bytes
  pub vcek_certificate_chain : Bytes
  pub vcek_issuer_chain_crl : Option Bytes

-- The fields that the report carries.
pub record Report : Type 0 where
  pub version : ℕ
  pub guest_svn : ℕ
  pub policy : ℕ
  pub family_id : Bytes
  pub image_id : Bytes
  pub vmpl : ℕ
  pub signature_algo : ℕ
  pub platform_version : TcbVersion
  pub platform_info : ℕ
  pub flags : ℕ
  pub report_data : Bytes
  pub measurement : Bytes
  pub host_data : Bytes
  pub id_key_digest : Bytes
  pub author_key_digest : Bytes
  pub report_id : Bytes
  pub report_id_ma : Bytes
  pub reported_tcb : TcbVersion
  pub chip_id : Bytes
  pub committed_tcb : TcbVersion
  pub current_minor : ℕ
  pub current_build : ℕ
  pub current_major : ℕ
  pub committed_build : ℕ
  pub committed_minor : ℕ
  pub committed_major : ℕ
  pub launch_tcb : TcbVersion
  pub signature : Signature

pub record Claims : Type 0 where
  pub report : Report
  pub endorsements : Endorsements

unfoldable pub signature_at : Bytes → Result Signature
signature_at evidence = do
  r ← bytes_at evidence 672 72
  s ← bytes_at evidence 744 72
  ok (record { r = r; s = s })

unfoldable pub read_report : Bytes → Result Report
unfolding tcb_version_at signature_at
read_report evidence = do
  version ← number_at evidence 0 4
  guest_svn ← number_at evidence 4 4
  policy ← number_at evidence 8 8
  family_id ← bytes_at evidence 16 16
  image_id ← bytes_at evidence 32 16
  vmpl ← number_at evidence 48 4
  signature_algo ← number_at evidence 52 4
  platform_version ← tcb_version_at evidence 56
  platform_info ← number_at evidence 64 8
  flags ← number_at evidence 72 4
  report_data ← bytes_at evidence 80 64
  measurement ← bytes_at evidence 144 48
  host_data ← bytes_at evidence 192 32
  id_key_digest ← bytes_at evidence 224 48
  author_key_digest ← bytes_at evidence 272 48
  report_id ← bytes_at evidence 320 32
  report_id_ma ← bytes_at evidence 352 32
  reported_tcb ← tcb_version_at evidence 384
  chip_id ← bytes_at evidence 416 64
  committed_tcb ← tcb_version_at evidence 480
  current_minor ← number_at evidence 488 1
  current_build ← number_at evidence 489 1
  current_major ← number_at evidence 490 1
  committed_build ← number_at evidence 492 1
  committed_minor ← number_at evidence 493 1
  committed_major ← number_at evidence 494 1
  launch_tcb ← tcb_version_at evidence 496
  signature ← signature_at evidence
  ok (record {
    version = version;
    guest_svn = guest_svn;
    policy = policy;
    family_id = family_id;
    image_id = image_id;
    vmpl = vmpl;
    signature_algo = signature_algo;
    platform_version = platform_version;
    platform_info = platform_info;
    flags = flags;
    report_data = report_data;
    measurement = measurement;
    host_data = host_data;
    id_key_digest = id_key_digest;
    author_key_digest = author_key_digest;
    report_id = report_id;
    report_id_ma = report_id_ma;
    reported_tcb = reported_tcb;
    chip_id = chip_id;
    committed_tcb = committed_tcb;
    current_minor = current_minor;
    current_build = current_build;
    current_major = current_major;
    committed_build = committed_build;
    committed_minor = committed_minor;
    committed_major = committed_major;
    launch_tcb = launch_tcb;
    signature = signature;
  })

abbrev pub concat : List Bytes → Bytes
concat [] = []
concat (b ∷ bs) = b ++ concat bs

module _ (crypto : OpenSsl) where
  -- `pem()` of a stack prints its certificates one after the other.
  abbrev pub stack_pem : List crypto.X509 → Bytes
  stack_pem stack = concat (map crypto.pem stack)

  unfoldable pub endorsement_claims : EndorsementsEtc crypto → Result Endorsements
  endorsement_claims e = elim e.root_ca_certificate [
    | none ↦ err (runtime_error "Root CA certificate not saved")
    | some root ↦ ok (record {
      root_ca_certificate = crypto.pem root;
      vcek_certificate_chain = stack_pem e.vcek_certificate_chain;
      vcek_issuer_chain_crl = elim e.vcek_issuer_chain_crl [
        | none ↦ none
        | some crl ↦ some (crypto.crl_pem crl)
      ];
    })
  ]

  unfoldable pub make_claims : Bytes → EndorsementsEtc crypto → Result Claims
  unfolding read_report endorsement_claims
  make_claims evidence e = do
    report ← read_report evidence
    endorsements ← endorsement_claims e
    ok (record { report = report; endorsements = endorsements })
