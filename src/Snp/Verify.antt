-- ===== src/Snp/Verify.antt =====
-- `verify_signature` and `verify` of include/ravl/sev_snp_impl.h.
pub mod Sound
use ravl.Prelude.{
  ℕ, ◌-◌, Bool, true, false, not, ◌&&◌, List, [], ◌∷◌, ◌++◌, Option, none, some, Bytes, codes,
  length, take, leb, ◌==◌, if◌then◌else◌,
}
use ravl.Result.{Result, ok, err, runtime_error, undefined, throw_if, rethrow, deref, ◌>>=◌, ◌>>◌}
use ravl.Options.{Options}
use ravl.Http.Message.{HttpResponses}
use ravl.Crypto.{OpenSsl, checked_chain}
use ravl.Sgx.Layout.{number_at}
use ravl.Sgx.Consume.{is_empty}
use ravl.Sgx.Verify.{Evidence, has_responses}
use ravl.Snp.Responses.{EndorsementsEtc, certificate_at, parse_root_cert, parse_url_responses}
use ravl.Snp.Claims.{Signature, Claims, signature_at, make_claims}

-- From include/ravl/sev_snp_impl.h, line by line.
unfoldable pub amd_milan_root_signing_public_key : Bytes
amd_milan_root_signing_public_key =
    codes "-----BEGIN PUBLIC KEY-----\n"
    ++ (codes "MIICIjANBgkqhkiG9w0BAQEFAAOCAg8AMIICCgKCAgEA0Ld52RJOdeiJlqK2JdsV\n"
        ++ (codes "mD7FktuotWwX1fNgW41XY9Xz1HEhSUmhLz9Cu9DHRlvgJSNxbeYYsnJfvyjx1MfU\n"
            ++ (codes "0V5tkKiU1EesNFta1kTA0szNisdYc9isqk7mXT5+KfGRbfc4V/9zRIcE8jlHN61S\n"
                ++ (codes "1ju8X93+6dxDUrG2SzxqJ4BhqyYmUDruPXJSX4vUc01P7j98MpqOS95rORdGHeI5\n"
                    ++ (codes "2Naz5m2B+O+vjsC060d37jY9LFeuOP4Meri8qgfi2S5kKqg/aF6aPtuAZQVR7u3K\n"
                        ++ (codes
                              "FYXP59XmJgtcog05gmI0T/OitLhuzVvpZcLph0odh/1IPXqx3+MnjD97A7fXpqGd\n"
                            ++ (codes
                                  "/y8KxX7jksTEzAOgbKAeam3lm+3yKIcTYMlsRMXPcjNbIvmsBykD//xSniusuHBk\n"
                                ++ (codes
                                      "gnlENEWx1UcbQQrs+gVDkuVPhsnzIRNgYvM48Y+7LGiJYnrmE8xcrexekBxrva2V\n"
                                    ++ (codes
                                          "9TJQqnN3Q53kt5viQi3+gCfmkwC0F0tirIZbLkXPrPwzZ0M9eNxhIySb2npJfgnq\n"
                                        ++ (codes
                                              "z55I0u33wh4r0ZNQeTGfw03MBUtyuzGesGkcw+loqMaq1qR4tjGbPYxCvpCq7+Og\n"
                                            ++ (codes
                                                  "pCCoMNit2uLo9M18fHz10lOMT8nWAUvRZFzteXCm+7PHdYPlmQwUw3LvenJ/ILXo\n"
                                                ++ (codes "QPHfbkH0CyPfhl1jWhJFZasCAwEAAQ==\n"
                                                    ++ codes
                                                        "-----END PUBLIC KEY-----\n"))))))))))))

module _ (crypto : OpenSsl) where
  unfoldable pub verify_signature : crypto.Key → Bytes → Signature → Result Bool
  verify_signature key message signature = do
    der ← crypto.coordinates_to_der signature.r signature.s
    crypto.verify_digest key (crypto.digest_384 message) der

  -- The root that goes with the attestation's own endorsements, if any.
  unfoldable pub find_root : Options → Option HttpResponses → Result (Option crypto.X509)
  find_root options responses = elim options.root_ca_certificate [
    | some root ↦ crypto.read_pem root >>= (λ parsed. ok (some parsed))
    | none ↦
        if options.fresh_root_ca_certificate
        then (deref responses >>= (λ rs. parse_root_cert crypto rs >>= (λ root. ok (some root))))
        else ok none
  ]

  unfoldable pub find_endorsements :
      Bytes → Options → Option HttpResponses → Result (EndorsementsEtc crypto)
  unfolding find_root
  find_endorsements endorsements options responses =
      if not (is_empty endorsements) && not options.fresh_endorsements
      then crypto.read_stack endorsements >>= (λ stack. find_root options responses >>= (λ root.
        ok (record {
          root_ca_certificate = root;
          vcek_certificate_chain = stack;
          vcek_issuer_chain_crl = none;
        })))
      else elim responses [
        | none ↦ err (runtime_error "missing endorsements")
        | some rs ↦ parse_url_responses crypto options rs
      ]

  -- The store, and whether the root of the chain is trusted.
  unfoldable pub prepare_store : EndorsementsEtc crypto → Result (crypto.Store × Bool)
  prepare_store e = do
    store ← crypto.add_parsed_crl crypto.new_store e.vcek_issuer_chain_crl
    elim e.root_ca_certificate [
      | some root ↦ crypto.add store root >>= (λ store'. ok (store', false))
      | none ↦ ok (store, true)
    ]

  unfoldable pub check_root : crypto.X509 → Options → Result (Unit {0})
  check_root ark options = do
    throw_if
        (options.check_root_certificate_manufacturer_key
          && not (crypto.has_public_key ark amd_milan_root_signing_public_key))
        "Root CA certificate does not have the expected AMD Milan public key"
    throw_if (not (crypto.is_ca ark)) "Root CA certificate is not a CA"

  -- All but the last 512 bytes are signed; of shorter evidence the span's size wraps around.
  abbrev pub signed_message : Bytes → Result Bytes
  signed_message evidence =
      if leb 512 (length evidence) then ok (take (length evidence - 512) evidence) else undefined

  unfoldable pub check_signature : Bytes → crypto.X509 → Result (Unit {0})
  unfolding verify_signature
  check_signature evidence vcek = do
    signature_algo ← number_at evidence 52 4
    throw_if (not (signature_algo == 1)) "unexpected signature algorithm"
    message ← signed_message evidence
    key ← crypto.public_key vcek
    signature ← signature_at evidence
    good ← verify_signature key message signature
    throw_if (not good) "invalid VCEK signature"

  -- A root that was trusted is the one that the claims show.
  abbrev pub with_root : EndorsementsEtc crypto → Bool → crypto.X509 → EndorsementsEtc crypto
  with_root e trusted_root ark =
      if trusted_root then record e { root_ca_certificate = some ark } else e

  unfoldable pub verify : Evidence → Options → Option HttpResponses → Result Claims
  unfolding find_endorsements prepare_store check_root check_signature
  verify att options responses = do
    throw_if (is_empty att.endorsements && not (has_responses responses)) "missing endorsements"
    e ← find_endorsements att.endorsements options responses
    (store, trusted_root) ← prepare_store e
    (chain, _) ← rethrow "{}" (
        checked_chain crypto store e.vcek_certificate_chain options.certificate_verification
          trusted_root)
    throw_if (not (length chain == 3)) "unexpected certificate chain length"
    vcek ← certificate_at crypto chain 0
    ark ← certificate_at crypto chain 2
    check_root ark options
    check_signature att.evidence vcek
    make_claims crypto att.evidence (with_root e trusted_root ark)
