-- ===== src/Lib.antt =====
-- ravl, a library for remote attestation verification: what its parts do, and that they do it.
--
-- The program. A user hands an attestation (evidence and endorsements) to the request tracker
-- (include/ravl/request_tracker_impl.h). The tracker asks the attestation which endorsements to
-- fetch, has an HTTP client fetch them (src/http_client.cpp, src/http_client_curl.cpp), which calls
-- the tracker back with the responses, and has the attestation verify itself.
--
-- The files.
--   Prelude, Result, Exec: shared names, byte strings, exceptions as values, methods that may throw.
--     `undefined` stands for executions that the C++ standard leaves undefined.
--   IdMap: std::map and std::unordered_map as association lists.
--   Util: include/ravl/util.h. Cursor has get, get_n and put, Hex the hexadecimal helpers, and Url
--     url_decode. A `uint8_t` is a number below 256, and sums of `size_t` are taken modulo 2 ^ 64.
--   Options: include/ravl/options.h and include/ravl/crypto_options.h.
--   Http: Message has the messages of include/ravl/http_client.h, Curl one transfer over libcurl with
--     its retries, Sync the synchronous client, and Async the class CurlClient of
--     src/http_client_curl.cpp, as the stretches that run under its mutex: Async.Events lets them
--     follow each other in any order. libcurl is a parameter: what each of its calls answers. Fetch
--     is the browser's client, FetchTracker of wasm/http_client_fetch.cpp.
--   Tracker: include/ravl/request_tracker_impl.h. State has the records, Advance the functions
--     advance, prepare_endorsements and verify, Api the other operations, Outcome a description of
--     advance as a function of one request, Forward what it makes of the tracked ones, Events the
--     sequences of calls, and Completes what a client that answers at once leads to.
--   Crypto, Json: verify_certificate_chain and extract_pem_certificate of include/ravl/crypto.h over a
--     record of OpenSSL's operations, and the operations of the JSON library with the search for the
--     signed part of a document.
--   Sgx: include/ravl/sgx_impl.h. Collateral is QL_QVE_Collateral, Urls download_collateral, Consume
--     consume_url_responses, Layout the packed structures of include/ravl/sgx_defs.h, Quote
--     parse_quote and SignatureData, Extension CertificateExtension, Tcb verify_tcb_json and
--     verify_tcb, Identity verify_qe_id, Claims make_claims, Verify the methods
--     prepare_endorsements and verify of Attestation, and Compress compress_pck_certificate_chain,
--     which writes into the evidence. The children of these modules have what is proved of them.
--   Snp: include/ravl/sev_snp_impl.h. Urls and Responses are the downloads and what is made of the
--     answers, Claims make_claims, and Verify the method verify.
--   OpenEnclave: include/ravl/oe_impl.h. Endorsements is the table of endorsements that
--     extract_sgx_attestation makes collateral of, CustomClaims extract_custom_claims, Extract the
--     rest of extract_sgx_attestation, Verify the methods prepare_endorsements and verify, which keep
--     the extracted attestation, and Compress compress_pck_certificate_chain.
--   Aci: include/ravl/aci_impl.h. Cose decodes the protected header of include/ravl/uvm_endorsements.h
--     over a record of QCBOR's operations, Did reads the documents of include/ravl/did.h and the keys
--     of include/ravl/jwk.h, Roots has the roots of trust, Endorsements verify_uvm_endorsements with
--     the verifier of include/ravl/cose_verifier_impl.h, and Verify the method verify, which asks
--     that of Snp first.
--   Attestation: src/attestation.cpp, attestations as JSON and CBOR.
--   Capi: src/capi.cpp, the C interface, with the choice of the class that an attestation's verify is
--     a method of.
--   Entry: verify_synchronous of include/ravl/ravl_impl.h, and that it agrees with the tracker.
--   Tests: concrete runs, and the theorems at concrete inputs.
--
-- Bounds. The recursion of advance is cut at depth 3, and its theorem shows that the cut is never
-- reached. All other loops recur on lists or on the rounds that are left. The loops over
-- certificates have a round for each byte, and one more.
--
-- Not modelled: threads and mutexes (what runs under a mutex is one event, and a sequence of events
-- has any order), log output, libcurl, OpenSSL, the JSON library, and the operating system; the
-- branch for plugin headers in include/ravl/oe_impl.h, which is never taken, and its code for Open
-- Enclave's own verifier; and QCBOR, t_cose and didx509, which are parameters.
pub mod Prelude
pub mod Result
pub mod Exec
pub mod Util
pub mod IdMap
pub mod OpenEnclave
pub mod Options
pub mod Crypto
pub mod Json
pub mod Http
pub mod Tracker
pub mod Sgx
pub mod Attestation
pub mod Aci
pub mod Capi
pub mod Snp
pub mod Entry
pub mod Tests
