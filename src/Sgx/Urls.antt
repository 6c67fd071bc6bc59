-- ===== src/Sgx/Urls.antt =====
-- Which endorsements an SGX attestation asks for: `download_root_ca_pem` and `download_collateral`
-- of include/ravl/sgx_impl.h.
use ravl.Prelude.{Bool, List, [], ◌∷◌, ◌++◌, Option, none, some, Bytes, codes, if◌then◌else◌}
use ravl.Result.{Result, ok, ◌>>=◌}
use ravl.Options.{Options}
use ravl.Http.Message.{HttpRequest, HttpRequests, get_request}

unfoldable pub intel_certificates_url_base : Bytes
intel_certificates_url_base = codes "https://certificates.trustedservices.intel.com"

unfoldable pub root_ca_url : Bytes
root_ca_url =
    intel_certificates_url_base ++ codes "/Intel_SGX_Provisioning_Certification_RootCA.pem"

unfoldable pub root_crl_url : Bytes
root_crl_url = intel_certificates_url_base ++ codes "/IntelSGXRootCA.crl"

unfoldable pub api_base_url : Bytes
api_base_url = codes "https://api.trustedservices.intel.com/sgx/certification/v3"

unfoldable pub tcb_url : Bytes
tcb_url = api_base_url ++ codes "/tcb"

unfoldable pub pck_crl_url : Bytes
pck_crl_url = api_base_url ++ codes "/pckcrl"

unfoldable pub qe_identity_url : Bytes
qe_identity_url = api_base_url ++ codes "/qe/identity"

unfoldable pub qve_identity_url : Bytes
qve_identity_url = api_base_url ++ codes "/qve/identity"

abbrev pub identity_url : Bool → Bytes
identity_url qve = if qve then qve_identity_url else qe_identity_url

-- The addresses that are asked directly.
unfoldable pub tcb_query : Bytes → Bytes
tcb_query fmspc = tcb_url ++ (codes "?fmspc=" ++ fmspc)

unfoldable pub pck_crl_query : Bytes → Bytes
pck_crl_query ca = pck_crl_url ++ (codes "?ca=" ++ (ca ++ codes "&encoding=pem"))

-- The addresses that the cache is asked for.
unfoldable pub tcb_def : Bytes → Bytes
tcb_def fmspc = tcb_url ++ (codes "&fmspc=" ++ fmspc)

unfoldable pub pck_def : Bytes → Bytes
pck_def ca =
    intel_certificates_url_base
    ++ (codes "/intelsgxpck" ++ (ca ++ (codes ".crl" ++ codes "&encoding=pem")))

abbrev pub identity_kind : Bool → Bytes
identity_kind qve = if qve then codes "qve/identity" else codes "qe/identity"

abbrev pub download_root_ca_pem : HttpRequests
download_root_ca_pem = get_request root_ca_url ∷ []

-- `if (!options.root_ca_certificate) requests.emplace_back(root_ca_url);`
abbrev pub root_requests : Option Bytes → HttpRequests
root_requests none = get_request root_ca_url ∷ []
root_requests (some root) = []

-- `vformat` of the fmt library, which throws on a malformed template.
module _ (vformat : Bytes → List Bytes → Result Bytes) where
  unfoldable pub cached : Bytes → Bytes → Bytes → Result HttpRequest
  cached tmpl kind url = do u ← vformat tmpl (kind ∷ url ∷ []); ok (get_request u)

  -- The requests but for the root certificate, to Intel or by the template.
  unfoldable pub collateral_requests : Option Bytes → Bytes → Bytes → Bool → Result HttpRequests
  unfolding cached
  collateral_requests none ca fmspc qve = ok (
      get_request root_crl_url
      ∷ get_request (tcb_query fmspc)
      ∷ get_request (pck_crl_query ca)
      ∷ get_request (identity_url qve)
      ∷ [])
  collateral_requests (some tmpl) ca fmspc qve = do
    crl ← cached tmpl (codes "pckcrl") root_crl_url
    tcb ← cached tmpl (codes "tcb") (tcb_def fmspc)
    pck_crl ← cached tmpl (codes "pckcrl") (pck_def ca)
    identity ← cached tmpl (identity_kind qve) (identity_url qve)
    ok (crl ∷ tcb ∷ pck_crl ∷ identity ∷ [])

  unfoldable pub download_collateral : Bytes → Bytes → Options → Bool → Result HttpRequests
  unfolding collateral_requests
  download_collateral ca fmspc options qve = do
    rest ← collateral_requests options.sgx_endorsement_cache_url_template ca fmspc qve
    ok (root_requests options.root_ca_certificate ++ rest)
