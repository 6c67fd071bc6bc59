-- ===== src/Tests/Sgx.antt =====
-- The SGX theorems at concrete inputs.
use ravl.Prelude.{◌≡◌, refl, true, false, List, ◌∷◌, [], none, some, map, codes, arith}
use ravl.Result.{ok, err, formatted, ◌>>=◌}
use ravl.Tests.Library.{plain}
use ravl.Options.{Options, default_options}
use ravl.Http.Message.{
  HttpRequest, HttpResponse, Headers, get_request, get_header_string, get_header_data, find_header,
}
use ravl.Util.Url.{url_decode, url_decode_chars, until_nul}
use ravl.Util.Hex.{to_lower}
use ravl.Sgx.Urls.{
  download_collateral, collateral_requests, root_ca_url, root_crl_url, tcb_query, pck_crl_query,
  identity_url,
}
use ravl.Sgx.Consume.{consume_url_responses}
use ravl.Sgx.Consume.Fields.{Serves, consume-download}
use ravl.Sgx.Consume.Pinned.{consume_pinned_fails}
use ravl.Util.Cursor.{put}
use ravl.Sgx.Collateral.{Collateral, new_collateral, parse_collateral}
use ravl.Sgx.Collateral.RoundTrip.{Fits, encode, parse_collateral-encode}

abbrev collateral : Collateral
collateral = record {
  major_version = 3;
  minor_version = 1;
  tee_type = 0;
  root_ca = [];
  pck_crl_issuer_chain = 65 ∷ [];
  root_ca_crl = 66 ∷ 67 ∷ [];
  pck_crl = [];
  tcb_info_issuer_chain = 68 ∷ [];
  tcb_info = 123 ∷ 125 ∷ [];
  qe_identity_issuer_chain = 69 ∷ [];
  qe_identity = 123 ∷ 125 ∷ [];
}

collateral-Fits : Fits collateral
unfolding put
collateral-Fits = record {
  major = omega arith;
  minor = omega arith;
  tee = omega arith;
  no_root = refl;
  short = omega arith;
}

parse_collateral-encode_example : parse_collateral (encode collateral) ≡ ok collateral
parse_collateral-encode_example = parse_collateral-encode collateral collateral-Fits

abbrev chains : Headers
chains =
    (codes "SGX-TCB-Info-Issuer-Chain", 65 ∷ [])
    ∷ (codes "SGX-PCK-CRL-Issuer-Chain", 66 ∷ [])
    ∷ (codes "SGX-Enclave-Identity-Issuer-Chain", 67 ∷ [])
    ∷ []

-- A server that sends the address back.
abbrev serve : HttpRequest → HttpResponse
serve q = record { status = 200; headers = chains; body = q.url }

serve-Serves : Serves serve (codes "processor") (codes "00") false
unfolding get_header_string get_header_data find_header url_decode url_decode_chars until_nul
    to_lower
serve-Serves = record {
  status_200 = λ q. refl;
  tcb_chain = 65 ∷ [];
  pck_chain = 66 ∷ [];
  identity_chain = 67 ∷ [];
  tcb_header = refl;
  pck_header = refl;
  identity_header = refl;
}

consume-download_example :
    (download_collateral plain (codes "processor") (codes "00") default_options false
      >>= (λ requests. consume_url_responses default_options (map serve requests) none false))
    ≡ ok (record new_collateral {
      root_ca = root_ca_url;
      root_ca_crl = root_crl_url;
      pck_crl_issuer_chain = serve-Serves.pck_chain;
      pck_crl = pck_crl_query (codes "processor");
      tcb_info_issuer_chain = serve-Serves.tcb_chain;
      tcb_info = tcb_query (codes "00");
      qe_identity_issuer_chain = serve-Serves.identity_chain;
      qe_identity = identity_url false;
    })
consume-download_example =
    consume-download plain serve (codes "processor") (codes "00") false default_options serve-Serves
      refl refl

-- Options with a root certificate of their own, and a download of the four others.
abbrev pinned : Options
pinned = record default_options { root_ca_certificate = some (82 ∷ []) }

abbrev four : List HttpRequest
four =
    get_request root_crl_url
    ∷ get_request (tcb_query (codes "00"))
    ∷ get_request (pck_crl_query (codes "processor"))
    ∷ get_request (identity_url false)
    ∷ []

consume_pinned_fails_example :
    consume_url_responses pinned (map serve four) none false
    ≡ err (formatted "collateral download request set of unexpected size ({} vs {})" (4 ∷ 5 ∷ []))
unfolding download_collateral collateral_requests
consume_pinned_fails_example =
    consume_pinned_fails plain (codes "processor") (codes "00") (82 ∷ []) pinned false four
      (map serve four) refl refl refl

abbrev refreshing : Options
refreshing = record pinned { fresh_endorsements = true }
