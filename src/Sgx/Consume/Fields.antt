-- ===== src/Sgx/Consume/Fields.antt =====
-- Downloads that reach the fields they are meant for.
use ravl.Prelude.{◌≡◌, Bool, true, List, none, map, Bytes, codes, arith}
use ravl.Result.{Result, ok, ◌>>=◌}
use ravl.Options.{Options}
use ravl.Http.Message.{HttpRequest, HttpResponse, get_request, get_header_string}
use ravl.Sgx.Collateral.{new_collateral}
use ravl.Sgx.Urls.{
  collateral_requests, download_collateral, root_ca_url, root_crl_url, tcb_query, pck_crl_query,
  identity_url,
}
use ravl.Sgx.Consume.{
  consume_url_responses, expected_responses, consume_root, consume_collateral, response_at,
}

-- A server for one platform, and the issuer chains that it sends in the headers.
pub record Serves (serve : HttpRequest → HttpResponse) (ca fmspc : Bytes) (qve : Bool)
    : Type 0 where
  pub status_200 : (q : HttpRequest) → (serve q).status ≡ 200
  pub tcb_chain : Bytes
  pub pck_chain : Bytes
  pub identity_chain : Bytes
  pub tcb_header :
      get_header_string
        (serve (get_request (tcb_query fmspc)))
        (codes "SGX-TCB-Info-Issuer-Chain")
        true
      ≡ ok tcb_chain
  pub pck_header :
      get_header_string
        (serve (get_request (pck_crl_query ca)))
        (codes "SGX-PCK-CRL-Issuer-Chain")
        true
      ≡ ok pck_chain
  pub identity_header :
      get_header_string
        (serve (get_request (identity_url qve)))
        (codes "SGX-Enclave-Identity-Issuer-Chain")
        true
      ≡ ok identity_chain

module _ (vformat : Bytes → List Bytes → Result Bytes) (serve : HttpRequest → HttpResponse) where
  abbrev body : Bytes → Bytes
  body url = (serve (get_request url)).body

  -- Asked directly and without a root certificate in the options, a server that answers every request
  -- by status 200, and with the issuer chains: the answer to each request of `download_collateral`
  -- becomes the part of the collateral that the request was made for.
  pub consume-download :
      (ca fmspc : Bytes) (qve : Bool) (options : Options) (s : Serves serve ca fmspc qve)
      → options.sgx_endorsement_cache_url_template ≡ none
      → options.root_ca_certificate ≡ none
      → (download_collateral vformat ca fmspc options qve
          >>= (λ requests. consume_url_responses options (map serve requests) none qve))
        ≡ ok (record new_collateral {
          root_ca = body root_ca_url;
          root_ca_crl = body root_crl_url;
          pck_crl_issuer_chain = s.pck_chain;
          pck_crl = body (pck_crl_query ca);
          tcb_info_issuer_chain = s.tcb_chain;
          tcb_info = body (tcb_query fmspc);
          qe_identity_issuer_chain = s.identity_chain;
          qe_identity = body (identity_url qve);
        })
  unfolding download_collateral collateral_requests consume_url_responses expected_responses
      consume_root consume_collateral response_at
  consume-download ca fmspc qve options s no_cache no_root = ground (
    arith,
    no_cache,
    no_root,
    s.status_200 (get_request root_ca_url),
    s.status_200 (get_request root_crl_url),
    s.status_200 (get_request (tcb_query fmspc)),
    s.status_200 (get_request (pck_crl_query ca)),
    s.status_200 (get_request (identity_url qve)),
    s.tcb_header,
    s.pck_header,
    s.identity_header,
  )
