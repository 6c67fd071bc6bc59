-- ===== src/Snp/Responses.antt =====
-- `parse_root_cert` and `parse_url_responses` of include/ravl/sev_snp_impl.h.
pub mod Downloads
use ravl.Prelude.{
  ℕ, ◌+◌, Bool, not, List, [], ◌∷◌, Option, none, some, Bytes, length, get_elem?, ◌==◌,
  if◌then◌else◌,
}
use ravl.Result.{Result, ok, err, formatted, throw_if, deref, ◌>>=◌, ◌>>◌}
use ravl.Options.{Options}
use ravl.Http.Message.{HttpResponse, HttpResponses}
use ravl.Crypto.{OpenSsl}

-- The first response of another status, with its index.
unfoldable pub check_statuses : ℕ → HttpResponses → Result (Unit {0})
check_statuses i [] = ok tt
check_statuses i (r ∷ rs) =
    let rest = check_statuses (i + 1) rs in
    if r.status == 200
    then rest
    else err (formatted "endorsement download failed (request index {}: {})" (i ∷ r.status ∷ []))

-- `http_responses[i].body`
abbrev pub body_at : HttpResponses → ℕ → Result Bytes
body_at rs i = deref (get_elem? rs i) >>= λ r. ok r.body

module _ (crypto : OpenSsl) where
  pub record EndorsementsEtc : Type 0 where
    pub root_ca_certificate : Option crypto.X509
    pub vcek_certificate_chain : List crypto.X509
    pub vcek_issuer_chain_crl : Option crypto.Crl

  -- `stack.at(i)`
  abbrev pub certificate_at : List crypto.X509 → ℕ → Result crypto.X509
  certificate_at stack i = deref (get_elem? stack i)

  unfoldable pub parse_root_cert : HttpResponses → Result crypto.X509
  parse_root_cert rs = do
    throw_if (not (length rs == 1)) "collateral download request set failed"
    issuer_chain ← body_at rs 0
    stack ← crypto.read_stack issuer_chain
    throw_if (not (length stack == 2)) "unexpected size of issuer certificate chain"
    certificate_at stack 1

  -- The chain of the cache, with the leaf, and the revocation list.
  unfoldable pub parse_cached : HttpResponses → Result EndorsementsEtc
  parse_cached rs = do
    throw_if (not (length rs == 2)) "unexpected number of URL responses"
    issuer_chain ← body_at rs 0
    stack ← crypto.read_stack issuer_chain
    throw_if (not (length stack == 3)) "unexpected size of issuer certificate chain"
    root ← certificate_at stack 2
    issuer_crl_der ← body_at rs 1
    crl ← crypto.read_crl issuer_crl_der
    ok (record {
      root_ca_certificate = some root;
      vcek_certificate_chain = stack;
      vcek_issuer_chain_crl = some crl;
    })

  -- AMD's three answers: the leaf in DER is inserted before the chain.
  unfoldable pub parse_direct : HttpResponses → Result EndorsementsEtc
  parse_direct rs = do
    throw_if (not (length rs == 3)) "unexpected number of URL responses"
    issuer_chain ← body_at rs 1
    stack ← crypto.read_stack issuer_chain
    throw_if (not (length stack == 2)) "unexpected size of issuer certificate chain"
    root ← certificate_at stack 1
    vcek_cert ← body_at rs 0
    vcek ← crypto.read_der vcek_cert
    issuer_crl_der ← body_at rs 2
    crl ← crypto.read_crl issuer_crl_der
    ok (record {
      root_ca_certificate = some root;
      vcek_certificate_chain = vcek ∷ stack;
      vcek_issuer_chain_crl = some crl;
    })

  abbrev pub read_root : Option Bytes → Result (Unit {0})
  read_root none = ok tt
  read_root (some root) = crypto.read_pem root >>= λ parsed. ok tt

  abbrev pub parse_by_source : Option Bytes → HttpResponses → Result EndorsementsEtc
  parse_by_source (some tmpl) rs = parse_cached rs
  parse_by_source none rs = parse_direct rs

  -- The root of the options is parsed, and then replaced by that of the responses.
  unfoldable pub parse_url_responses : Options → HttpResponses → Result EndorsementsEtc
  unfolding check_statuses parse_cached parse_direct
  parse_url_responses options rs = do
    check_statuses 0 rs
    read_root options.root_ca_certificate
    parse_by_source options.sev_snp_endorsement_cache_url_template rs
