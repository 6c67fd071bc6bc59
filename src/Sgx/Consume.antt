-- ===== src/Sgx/Consume.antt =====
-- `check_http_200` and `consume_url_responses` of include/ravl/sgx_impl.h: the responses become
-- collateral.
pub mod Fields
pub mod Pinned
use ravl.Prelude.{
  ℕ, ◌+◌, Bool, true, false, ◌&&◌, ◌||◌, [], ◌∷◌, Option, none, some, String, Bytes, codes, not,
  length, get_elem?, ltb, ◌==◌, if◌then◌else◌,
}
use ravl.Result.{Result, ok, err, formatted, throw_if, deref, ◌>>=◌, ◌>>◌}
use ravl.Options.{Options}
use ravl.Http.Message.{HttpResponse, HttpResponses, get_header_string}
use ravl.Sgx.Collateral.{Collateral, new_collateral}

abbrev pub is_empty : Bytes → Bool
is_empty [] = true
is_empty (b ∷ bs) = false

abbrev pub is_none : Option Bytes → Bool
is_none none = true
is_none (some a) = false

-- `what` is the message, "download of … failed".
abbrev pub check_http_200 : HttpResponse → String → Result (Unit {0})
check_http_200 response what = throw_if (not (response.status == 200)) what

abbrev pub wants_root : Options → Option Collateral → Bool
wants_root options none = true
wants_root options (some c) =
    (is_empty c.root_ca && is_none options.root_ca_certificate) || options.fresh_root_ca_certificate

abbrev pub wants_collateral : Options → Option Collateral → Bool
wants_collateral options none = true
wants_collateral options (some c) = options.fresh_endorsements

unfoldable pub expected_responses : Options → Option Collateral → ℕ
expected_responses options c =
    (if wants_root options c then 1 else 0) + (if wants_collateral options c then 4 else 0)

-- `http_responses[i]`, checked for its status; past the end it is undefined.
unfoldable pub response_at : HttpResponses → ℕ → String → Result HttpResponse
response_at rs i what = do
  response ← deref (get_elem? rs i)
  check_http_200 response what
  ok response

-- The copy of the collateral, or a new one.
abbrev pub copied : Option Collateral → Collateral
copied none = new_collateral
copied (some c) = c

-- `if (!options.root_ca_certificate)`: the collateral and the next index.
unfoldable pub consume_root : Options → HttpResponses → Collateral → Result (Collateral × ℕ)
unfolding response_at
consume_root options rs c = elim options.root_ca_certificate [
  | none ↦
      response_at rs 0 "download of root CA certificate failed"
      >>= (λ root. ok (record c { root_ca = root.body }, 1))
  | some root ↦ ok (c, 0)
]

-- The four responses from index `i` on.
unfoldable pub consume_collateral : HttpResponses → ℕ → Bool → Collateral → Result Collateral
unfolding response_at
consume_collateral rs i qve c = do
  crl ← response_at rs i "download of root CA CRL failed"
  tcb ← response_at rs (i + 1) "download of TCB info failed"
  tcb_chain ← get_header_string tcb (codes "SGX-TCB-Info-Issuer-Chain") true
  pck ← response_at rs (i + 2) "download of PCK CRL failed"
  pck_chain ← get_header_string pck (codes "SGX-PCK-CRL-Issuer-Chain") true
  qe ←
      response_at rs (i + 3)
        (if qve then "download of QVE identity failed" else "download of QE identity failed")
  qe_chain ← get_header_string qe (codes "SGX-Enclave-Identity-Issuer-Chain") true
  ok (record c {
    root_ca_crl = crl.body;
    tcb_info = tcb.body;
    tcb_info_issuer_chain = tcb_chain;
    pck_crl = pck.body;
    pck_crl_issuer_chain = pck_chain;
    qe_identity = qe.body;
    qe_identity_issuer_chain = qe_chain;
  })

unfoldable pub consume_url_responses :
    Options → HttpResponses → Option Collateral → Bool → Result Collateral
unfolding expected_responses consume_root consume_collateral
consume_url_responses options rs collateral qve =
    if not (length rs == expected_responses options collateral)
    then err (
        formatted "collateral download request set of unexpected size ({} vs {})"
          (length rs ∷ expected_responses options collateral ∷ []))
    else consume_root options rs (copied collateral)
      >>= (λ (r, i). if ltb 4 (length rs) then consume_collateral rs i qve r else ok r)
