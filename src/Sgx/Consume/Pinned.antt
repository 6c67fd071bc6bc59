-- ===== src/Sgx/Consume/Pinned.antt =====
-- Downloads for options with a root certificate of the user's own.
use ravl.Prelude.{
  ◌+◌, ◌≡◌, Bool, true, false, List, [], ◌∷◌, Option, none, some, Bytes, codes, arith, length,
  length-append,
}
use ravl.Result.{Result, ok, err, formatted, bind_returned}
use ravl.Options.{Options}
use ravl.Http.Message.{HttpRequests, HttpResponses}
use ravl.Sgx.Collateral.{Collateral}
use ravl.Sgx.Urls.{
  cached, collateral_requests, download_collateral, root_requests, root_crl_url, tcb_def, pck_def,
  identity_kind, identity_url,
}
use ravl.Sgx.Consume.{consume_url_responses, expected_responses, consume_root}

module _ (vformat : Bytes → List Bytes → Result Bytes) where
  length-collateral_requests :
      (t : Option Bytes) (ca fmspc : Bytes) (qve : Bool) (rs : HttpRequests)
      → collateral_requests vformat t ca fmspc qve ≡ ok rs
      → length rs ≡ 4
  unfolding collateral_requests
  length-collateral_requests none ca fmspc qve rs e = ground (arith)
  length-collateral_requests (some tmpl) ca fmspc qve rs e =
      let (crl, e₁, _) = bind_returned (cached vformat tmpl (codes "pckcrl") root_crl_url) _ e in
      let (tcb, e₂, _) = bind_returned (cached vformat tmpl (codes "tcb") (tcb_def fmspc)) _ e₁ in
      let (pck, e₃, _) = bind_returned (cached vformat tmpl (codes "pckcrl") (pck_def ca)) _ e₂ in
      let (_, e₄, _) =
        bind_returned (cached vformat tmpl (identity_kind qve) (identity_url qve)) _ e₃ in
      ground (arith, e₄)

  length-download_collateral :
      (ca fmspc : Bytes) (options : Options) (qve : Bool) (rs : HttpRequests)
      → download_collateral vformat ca fmspc options qve ≡ ok rs
      → length rs ≡ length (root_requests options.root_ca_certificate) + 4
  unfolding download_collateral
  length-download_collateral ca fmspc options qve rs e =
      let (rest, e₁, e₂) =
        bind_returned
          (collateral_requests vformat options.sgx_endorsement_cache_url_template ca fmspc qve) _
          e in
      let four =
        length-collateral_requests options.sgx_endorsement_cache_url_template ca fmspc qve rest
          e₂ in
      ground (arith, e₁, four, length-append (root_requests options.root_ca_certificate) rest)

  -- Without collateral, the responses to exactly the requests that `download_collateral` makes are
  -- refused if the options have a root certificate: 4 are asked for and 5 expected.
  pub consume_pinned_fails :
      (ca fmspc root : Bytes) (options : Options) (qve : Bool) (requests : HttpRequests)
      (rs : HttpResponses)
      → options.root_ca_certificate ≡ some root
      → download_collateral vformat ca fmspc options qve ≡ ok requests
      → length rs ≡ length requests
      → consume_url_responses options rs none qve
        ≡ err
            (formatted "collateral download request set of unexpected size ({} vs {})" (4 ∷ 5 ∷ []))
  unfolding consume_url_responses expected_responses
  consume_pinned_fails ca fmspc root options qve requests rs pinned e same =
      let n = length-download_collateral ca fmspc options qve requests e in
      ground (arith, n, same, rw pinned at n)

  -- With a root certificate in the options, the responses to a download that the options want
  -- fresh, and no fresh root, are dropped: the collateral stays as it was, whatever they are.
  consume_pinned_keeps :
      (ca fmspc root : Bytes) (options : Options) (qve : Bool) (c : Collateral)
      (requests : HttpRequests) (rs : HttpResponses)
      → options.root_ca_certificate ≡ some root
      → options.fresh_endorsements ≡ true
      → options.fresh_root_ca_certificate ≡ false
      → download_collateral vformat ca fmspc options qve ≡ ok requests
      → length rs ≡ length requests
      → consume_url_responses options rs (some c) qve ≡ ok c
  unfolding consume_url_responses expected_responses consume_root
  consume_pinned_keeps ca fmspc root options qve c requests rs pinned fresh no_root e same =
      let n = length-download_collateral ca fmspc options qve requests e in
      ground (arith, n, same, rw pinned at n, pinned, fresh, no_root)
