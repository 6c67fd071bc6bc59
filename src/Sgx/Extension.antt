-- ===== src/Sgx/Extension.antt =====
-- `CertificateExtension` of include/ravl/sgx_impl.h: the SGX extension of a PCK certificate.
use ravl.Prelude.{
  ℕ, zero, suc, ◌+◌, ◌/◌, ◌%◌, Bool, not, ◌&&◌, List, [], ◌∷◌, ◌++◌, Option, none, some, Bytes,
  codes, length, ltb, ◌==◌, if◌then◌else◌,
}
use ravl.Result.{Result, ok, throw_if, ◌>>=◌, ◌>>◌}
use ravl.Crypto.{OpenSsl}

pub record ExtensionTcb : Type 0 where
  pub comp_svn : List ℕ
  pub pce_svn : ℕ
  pub cpu_svn : Bytes

pub record Configuration : Type 0 where
  pub dynamic_platform : Bool
  pub cached_keys : Bool
  pub smt_enabled : Bool

pub record CertificateExtension : Type 0 where
  pub ppid : Bytes
  pub tcb : ExtensionTcb
  pub pceid : Bytes
  pub fmspc : Bytes
  pub sgx_type : Bool
  pub platform_instance_id : Option Bytes
  pub configuration : Option Configuration

-- `std::to_string` of a number below 100, and `{:02d}` of one.
abbrev pub two_digits : ℕ → Bytes
two_digits n = (b'0' + n / 10) ∷ (b'0' + n % 10) ∷ []

abbrev pub decimal : ℕ → Bytes
decimal n = if ltb n 10 then (b'0' + n) ∷ [] else two_digits n

abbrev pub sgx_ext_oid : Bytes
sgx_ext_oid = codes "1.2.840.113741.1.13.1"

-- The OID `n` below another.
abbrev pub below : Bytes → ℕ → Bytes
below oid n = oid ++ (codes "." ++ decimal n)

module _ (crypto : OpenSsl) where
  -- The components from index `i` on, `k` of them.
  unfoldable pub comp_svns : crypto.Sequence → ℕ → ℕ → Result (List ℕ)
  comp_svns seq i zero = ok []
  comp_svns seq i (suc k) = do
    svn ← crypto.get_number seq i (below (below sgx_ext_oid 2) (i + 1))
    rest ← comp_svns seq (i + 1) k
    ok (svn ∷ rest)

  unfoldable pub get_tcb_ext : crypto.Sequence → ℕ → Result ExtensionTcb
  unfolding comp_svns
  get_tcb_ext seq i = do
    tcb ← crypto.get_seq seq i (below sgx_ext_oid 2)
    throw_if (not (crypto.size tcb == 18)) "SGX X509 TCB extension: sequence of invalid length"
    comp_svn ← comp_svns tcb 0 16
    pce_svn ← crypto.get_number tcb 16 (below (below sgx_ext_oid 2) 17)
    cpu_svn ← crypto.get_octet_string tcb 17 (below (below sgx_ext_oid 2) 18)
    throw_if (not (length cpu_svn == 16))
        "SGX X509 TCB extension: ASN.1 octet string of invalid size"
    ok (record { comp_svn = comp_svn; pce_svn = pce_svn; cpu_svn = cpu_svn })

  -- The extensions of a certificate from the platform CA.
  unfoldable pub get_configuration : crypto.Sequence → Result Configuration
  get_configuration seq = do
    config ← crypto.get_seq seq 6 (below sgx_ext_oid 7)
    throw_if (not (crypto.size config == 3))
        "SGX X509 extension configuration sequence has invalid size"
    dynamic_platform ← crypto.get_bool config 0 (below (below sgx_ext_oid 7) 1)
    cached_keys ← crypto.get_bool config 1 (below (below sgx_ext_oid 7) 2)
    smt_enabled ← crypto.get_bool config 2 (below (below sgx_ext_oid 7) 3)
    ok (record {
      dynamic_platform = dynamic_platform;
      cached_keys = cached_keys;
      smt_enabled = smt_enabled;
    })

  unfoldable pub get_platform : crypto.Sequence → CertificateExtension → Result CertificateExtension
  unfolding get_configuration
  get_platform seq ext = do
    id ← crypto.get_octet_string seq 5 (below sgx_ext_oid 6)
    configuration ← get_configuration seq
    ok (record ext { platform_instance_id = some id; configuration = some configuration })

  unfoldable pub certificate_extension : crypto.X509 → Result CertificateExtension
  unfolding get_tcb_ext get_platform
  certificate_extension certificate = do
    seq ← crypto.extension certificate sgx_ext_oid
    throw_if (not (crypto.size seq == 5) && not (crypto.size seq == 7))
        "SGX X509 extension sequence has invalid size"
    ppid ← crypto.get_octet_string seq 0 (below sgx_ext_oid 1)
    tcb ← get_tcb_ext seq 1
    pceid ← crypto.get_octet_string seq 2 (below sgx_ext_oid 3)
    fmspc ← crypto.get_octet_string seq 3 (below sgx_ext_oid 4)
    sgx_type ← crypto.get_number seq 4 (below sgx_ext_oid 5)
    let ext : CertificateExtension = record {
      ppid = ppid;
      tcb = tcb;
      pceid = pceid;
      fmspc = fmspc;
      sgx_type = not (sgx_type == 0);
      platform_instance_id = none;
      configuration = none;
    }
    if ltb 5 (crypto.size seq) then get_platform seq ext else ok ext
