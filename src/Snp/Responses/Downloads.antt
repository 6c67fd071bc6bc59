-- ===== src/Snp/Responses/Downloads.antt =====
-- Downloads of SEV/SNP endorsements, and what becomes of the answers.
use ravl.Prelude.{◌≡◌, List, [], ◌∷◌, none, some, map, Bytes, arith}
use ravl.Result.{Result, ok, ◌>>=◌}
use ravl.Options.{Options}
use ravl.Http.Message.{HttpRequest, HttpResponse, HttpResponses, get_request}
use ravl.Crypto.{OpenSsl}
use ravl.Util.Hex.{to_hex}
use ravl.Snp.Urls.{TcbVersion, download_endorsements, vcek_url, chain_url, crl_url}
use ravl.Snp.Responses.{check_statuses, parse_direct, parse_url_responses}

module _ (crypto : OpenSsl) where
  -- With a root certificate in the options that OpenSSL can read, the endorsements of the responses
  -- are the same as without one: the user's root is replaced by the downloaded one.
  pub parse_url_responses_replaces_root :
      (options : Options) (root : Bytes) (parsed : crypto.X509) (rs : HttpResponses)
      → crypto.read_pem root ≡ ok parsed
      → parse_url_responses crypto (record options { root_ca_certificate = some root }) rs
        ≡ parse_url_responses crypto (record options { root_ca_certificate = none }) rs
  unfolding parse_url_responses
  parse_url_responses_replaces_root options root parsed rs h = rw h

  module _ (vformat : Bytes → List Bytes → Result Bytes) (serve : HttpRequest → HttpResponse) where
    abbrev body : Bytes → Bytes
    body url = (serve (get_request url)).body

    -- Asked directly and without a root certificate in the options, a server that answers every
    -- request by status 200 with certificates that OpenSSL can read, the issuer chain two of them: the
    -- chain starts with the leaf of the first answer, the root is the second certificate of the second
    -- answer, and the third answer is the revocation list.
    pub parse_url_responses-download :
        (product_name chip_id : Bytes) (v : TcbVersion) (options : Options)
        (vcek ask ark : crypto.X509) (crl : crypto.Crl)
        → options.sev_snp_endorsement_cache_url_template ≡ none
        → options.root_ca_certificate ≡ none
        → ((q : HttpRequest) → (serve q).status ≡ 200)
        → crypto.read_der (body (vcek_url product_name (to_hex chip_id) v)) ≡ ok vcek
        → crypto.read_stack (body (chain_url product_name)) ≡ ok (ask ∷ ark ∷ [])
        → crypto.read_crl (body (crl_url product_name)) ≡ ok crl
        → (download_endorsements vformat product_name chip_id v options
            >>= (λ requests. parse_url_responses crypto options (map serve requests)))
          ≡ ok (record {
            root_ca_certificate = some ark;
            vcek_certificate_chain = vcek ∷ ask ∷ ark ∷ [];
            vcek_issuer_chain_crl = some crl;
          })
    unfolding download_endorsements parse_url_responses check_statuses parse_direct
    parse_url_responses-download product_name chip_id v options vcek ask ark crl no_cache no_root
          good h₁ h₂ h₃ =
        ground (
          arith,
          no_cache,
          no_root,
          good (get_request (vcek_url product_name (to_hex chip_id) v)),
          good (get_request (chain_url product_name)),
          good (get_request (crl_url product_name)),
          h₁,
          h₂,
          h₃,
        )
