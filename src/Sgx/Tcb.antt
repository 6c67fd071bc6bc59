-- ===== src/Sgx/Tcb.antt =====
-- `verify_tcb_json` and `verify_tcb` of include/ravl/sgx_impl.h: the platform's TCB level.
pub mod Levels
pub mod Accepted
use ravl.Prelude.{
  String, ℕ, zero, suc, ◌+◌, Bool, true, false, not, ◌&&◌, ◌||◌, List, [], ◌∷◌, ◌++◌, Bytes, codes,
  bytes_eq, leb, ltb, ◌==◌, if◌then◌else◌,
}
use ravl.Result.{Result, ok, throw_if, rethrow, ◌>>=◌, ◌>>◌}
use ravl.Options.{Options}
use ravl.Crypto.{OpenSsl, front, back, verify_certificate_chain, verify_signature}
use ravl.Json.{JsonLibrary, signed_part}
use ravl.Util.Hex.{from_hex}
use ravl.Sgx.Extension.{CertificateExtension, two_digits}

pub record TcbLevel : Type 0 where
  pub comp_svn : List ℕ
  pub pce_svn : ℕ
  pub status : Bytes
  pub date : Bytes

-- The level whose status is empty, which no level has been chosen for yet.
abbrev pub no_level : TcbLevel
no_level = record { comp_svn = []; pce_svn = 0; status = []; date = [] }

abbrev pub has_status : TcbLevel → Bool
has_status level = not (bytes_eq level.status [])

-- Every component is at least that of the level.
abbrev pub covers : List ℕ → List ℕ → Bool
covers (s ∷ ss) (t ∷ ts) = leb t s && covers ss ts
covers _ _ = true

abbrev pub matches : CertificateExtension → TcbLevel → Bool
matches ext level = covers ext.tcb.comp_svn level.comp_svn && leb level.pce_svn ext.tcb.pce_svn

-- The first that matches, as the loop keeps it.
abbrev pub choose : CertificateExtension → TcbLevel → TcbLevel → TcbLevel
choose ext chosen level =
    if has_status chosen then chosen else if matches ext level then level else chosen

-- The public key of Intel's root certificate, `intel_root_public_key_pem`.
unfoldable pub intel_root_public_key_pem : Bytes
intel_root_public_key_pem =
    codes "-----BEGIN PUBLIC KEY-----\n"
    ++ (codes "MFkwEwYHKoZIzj0CAQYIKoZIzj0DAQcDQgAEC6nEwMDIYZOj/iPWsCzaEKi71OiO\n"
        ++ (codes "SLRFhWGjbnBVJfVnkY4u3IjkDYYL0MxO4mqsyYjlBalTVYxFP2sJBK5zlA==\n"
            ++ codes "-----END PUBLIC KEY-----\n"))

-- `parse_time_point` counts the seconds from a time before all others.
module _ (json : JsonLibrary) (parse_time_point : Bytes → Result ℕ) where
  unfoldable pub check_datetime : Bytes → String → Result (Unit {0})
  check_datetime date what = do
    earliest_permitted ← parse_time_point (codes "2017-03-17T00:00:00Z")
    issue ← parse_time_point date
    throw_if (ltb issue earliest_permitted) what

  -- The member of a document as a string.
  unfoldable pub string_at : json.Json → Bytes → Result Bytes
  string_at j key = do v ← json.at j key; json.get_string v

  unfoldable pub number_of : ℕ → json.Json → Bytes → Result ℕ
  number_of w j key = do v ← json.at j key; json.get_unsigned w v

  -- Without the optional `optional`, which no call sets.
  unfoldable pub json_vector_eq : json.Json → Bytes → Bytes → Result Bool
  json_vector_eq j key ref = do
    v ← json.at j key
    throw_if (json.is_null v) "missing json object"
    s ← json.get_string v
    bytes ← from_hex s
    ok (bytes_eq bytes ref)

  -- `sgxtcbcomp01svn` and so on, from `i` on, `k` of them.
  unfoldable pub level_comp_svns : json.Json → ℕ → ℕ → Result (List ℕ)
  unfolding number_of
  level_comp_svns tcb i zero = ok []
  level_comp_svns tcb i (suc k) = do
    svn ← number_of 8 tcb (codes "sgxtcbcomp" ++ (two_digits (i + 1) ++ codes "svn"))
    rest ← level_comp_svns tcb (i + 1) k
    ok (svn ∷ rest)

  unfoldable pub read_level : json.Json → Result TcbLevel
  unfolding string_at level_comp_svns number_of
  read_level j = do
    date ← string_at j (codes "tcbDate")
    status ← string_at j (codes "tcbStatus")
    tcb ← json.at j (codes "tcb")
    comp_svn ← level_comp_svns tcb 0 16
    pce_svn ← number_of 16 tcb (codes "pcesvn")
    ok (record { comp_svn = comp_svn; pce_svn = pce_svn; status = status; date = date })

  -- The loop over the levels: `chosen` is `platform_tcb_level`.
  unfoldable pub levels_loop : CertificateExtension → TcbLevel → List json.Json → Result TcbLevel
  levels_loop ext chosen [] = ok chosen
  levels_loop ext chosen (j ∷ js) = do
    level ← read_level j
    levels_loop ext (choose ext chosen level) js

  unfoldable pub check_version : json.Json → Result (Unit {0})
  unfolding number_of
  check_version tcb_info =
      if json.contains tcb_info (codes "version")
      then number_of 32 tcb_info (codes "version")
        >>= (λ version. throw_if (not (version == 2)) "unsupported tcbInfo version")
      else throw_if true "unsupported tcbInfo version"

  unfoldable pub check_dates : json.Json → Result (Unit {0})
  unfolding check_datetime string_at
  check_dates tcb_info = do
    issued ← string_at tcb_info (codes "issueDate")
    check_datetime issued "TCB issue date earlier than permitted"
    next ← string_at tcb_info (codes "nextUpdate")
    check_datetime next "TCB next update earlier than permitted"

  unfoldable pub check_platform : json.Json → CertificateExtension → Result (Unit {0})
  unfolding json_vector_eq number_of
  check_platform tcb_info ext = do
    fmspc ← json_vector_eq tcb_info (codes "fmspc") ext.fmspc
    throw_if (not fmspc) "fmspc mismatch"
    pceid ← json_vector_eq tcb_info (codes "pceId") ext.pceid
    throw_if (not pceid) "pceid mismatch"
    tcb_type ← number_of 64 tcb_info (codes "tcbType")
    throw_if (not (tcb_type == 0)) "tcbType not supported"

  unfoldable pub find_level : json.Json → CertificateExtension → Result TcbLevel
  unfolding levels_loop
  find_level tcb_info ext = do
    levels ← json.at tcb_info (codes "tcbLevels")
    elements ← json.elements levels
    level ← levels_loop ext no_level elements
    throw_if (not (has_status level)) "no matching TCB level found"
    ok level

  -- The body of the `try`: the level and the signature.
  unfoldable pub read_tcb_info : Bytes → CertificateExtension → Result (TcbLevel × Bytes)
  unfolding check_version check_dates check_platform find_level string_at
  read_tcb_info text ext = do
    document ← json.parse text
    tcb_info ← json.at document (codes "tcbInfo")
    check_version tcb_info
    check_dates tcb_info
    check_platform tcb_info ext
    level ← find_level tcb_info ext
    hex ← string_at document (codes "signature")
    signature ← from_hex hex
    ok (level, signature)

  module _ (crypto : OpenSsl) where
    unfoldable pub verify_tcb_json : Bytes → CertificateExtension → crypto.Key → Result TcbLevel
    unfolding read_tcb_info signed_part
    verify_tcb_json text ext key = do
      (level, signature) ← rethrow "incorrectly formatted SGX TCB: {}" (read_tcb_info text ext)
      message ← signed_part text (codes "{\"tcbInfo\":") (codes ",\"signature\"")
      good ← verify_signature crypto key message signature
      throw_if (not good) "tcbInfo signature verification failed"
      ok level

    unfoldable pub verify_tcb :
        Bytes → Bytes → CertificateExtension → crypto.Store → Options → Result TcbLevel
    unfolding verify_tcb_json
    verify_tcb issuer_chain text ext store options = do
      (chain, _) ←
          verify_certificate_chain crypto issuer_chain store options.certificate_verification false
      leaf ← front chain
      root ← back chain
      key ← crypto.public_key leaf
      throw_if
          (options.check_root_certificate_manufacturer_key
            && not (crypto.has_public_key root intel_root_public_key_pem))
          "TCB issuer root certificate does not use the expected Intel SGX public key"
      verify_tcb_json text ext key
