-- ===== src/Tests/Snp.antt =====
-- SEV/SNP attestations at concrete inputs.
use ravl.Prelude.{◌≡◌, refl, [], ◌∷◌, ◌++◌, none, some, map, codes, replicate}
use ravl.Result.{ok, ◌>>=◌}
use ravl.Options.{default_options}
use ravl.Http.Message.{HttpRequest, HttpResponse, HttpResponses}
use ravl.Crypto.{build_chain, checked_chain}
use ravl.Sgx.Layout.{bytes_at, number_at}
use ravl.Sgx.Verify.{Evidence}
use ravl.Snp.Urls.{TcbVersion, tcb_version_at, download_endorsements}
use ravl.Snp.Responses.{check_statuses, parse_direct, parse_url_responses}
use ravl.Snp.Responses.Downloads.{parse_url_responses_replaces_root, parse_url_responses-download}
use ravl.Snp.Claims.{Claims, signature_at, read_report, endorsement_claims, make_claims}
use ravl.Snp.Verify.{
  verify_signature, find_endorsements, find_root, prepare_store, check_root, check_signature,
  verify,
}
use ravl.Snp.Verify.Sound.{IsEndorsed, verify-IsEndorsed}
use ravl.Tests.Library.{library, plain}

abbrev serve : HttpRequest → HttpResponse
serve q = record { status = 200; headers = []; body = q.url }

abbrev version : TcbVersion
version = record { boot_loader = 3; tee = 0; snp = 8; microcode = 115; whole = 115 }

parse_url_responses-download_example :
    (download_endorsements plain (codes "Milan") (1 ∷ []) version default_options
      >>= (λ requests. parse_url_responses library default_options (map serve requests)))
    ≡ ok (record {
      root_ca_certificate = some 2;
      vcek_certificate_chain = 3 ∷ 1 ∷ 2 ∷ [];
      vcek_issuer_chain_crl = some tt;
    })
parse_url_responses-download_example =
    parse_url_responses-download library plain serve (codes "Milan") (1 ∷ []) version
      default_options 3 1 2 tt refl refl (λ q. refl) refl refl refl

abbrev pub three_answers : HttpResponses
three_answers =
    record { status = 200; headers = []; body = 1 ∷ [] }
    ∷ record { status = 200; headers = []; body = 2 ∷ [] }
    ∷ record { status = 200; headers = []; body = 3 ∷ [] }
    ∷ []

parse_url_responses_replaces_root_example :
    parse_url_responses library
      (record default_options { root_ca_certificate = some (82 ∷ []) })
      three_answers
    ≡ parse_url_responses library
        (record default_options { root_ca_certificate = none })
        three_answers
parse_url_responses_replaces_root_example =
    parse_url_responses_replaces_root library default_options (82 ∷ []) 1 three_answers refl

abbrev pub evidence : Evidence
evidence = record {
  evidence = (2 ∷ 0 ∷ 0 ∷ 0 ∷ []) ++ (replicate 48 0 ++ ((1 ∷ 0 ∷ 0 ∷ 0 ∷ []) ++ replicate 1128 0));
  endorsements = [];
}

abbrev no_version : TcbVersion
no_version = record { boot_loader = 0; tee = 0; snp = 0; microcode = 0; whole = 0 }

abbrev pub claims : Claims
claims = record {
  report = record {
    version = 2;
    guest_svn = 0;
    policy = 0;
    family_id = replicate 16 0;
    image_id = replicate 16 0;
    vmpl = 0;
    signature_algo = 1;
    platform_version = no_version;
    platform_info = 0;
    flags = 0;
    report_data = replicate 64 0;
    measurement = replicate 48 0;
    host_data = replicate 32 0;
    id_key_digest = replicate 48 0;
    author_key_digest = replicate 48 0;
    report_id = replicate 32 0;
    report_id_ma = replicate 32 0;
    reported_tcb = no_version;
    chip_id = replicate 64 0;
    committed_tcb = no_version;
    current_minor = 0;
    current_build = 0;
    current_major = 0;
    committed_build = 0;
    committed_minor = 0;
    committed_major = 0;
    launch_tcb = no_version;
    signature = record { r = replicate 72 0; s = replicate 72 0 };
  };
  endorsements = record {
    root_ca_certificate = 2 ∷ [];
    vcek_certificate_chain = 3 ∷ 1 ∷ 2 ∷ [];
    vcek_issuer_chain_crl = some (9 ∷ []);
  };
}

verify-IsEndorsed_example : IsEndorsed library evidence default_options (some three_answers)
unfolding verify find_endorsements find_root prepare_store check_root check_signature
    verify_signature parse_url_responses check_statuses parse_direct checked_chain build_chain
    make_claims read_report endorsement_claims signature_at tcb_version_at bytes_at number_at
verify-IsEndorsed_example =
    verify-IsEndorsed library evidence default_options (some three_answers) claims refl
