-- ===== src/Sgx/Identity.antt =====
-- `verify_qe_id` of include/ravl/sgx_impl.h: the identity of the quoting enclave.
pub mod Accepted
use Prim.Native.Nat.{bit_and}
use ravl.Prelude.{
  ℕ, ◌+◌, Bool, true, false, not, ◌&&◌, ◌||◌, List, [], ◌∷◌, Option, none, some, String, Bytes,
  codes, bytes_eq, length, take, drop, leb, ltb, ◌==◌, if◌then◌else◌,
}
use ravl.Result.{Result, ok, throw_if, rethrow, ◌>>=◌, ◌>>◌}
use ravl.Options.{Options}
use ravl.Crypto.{OpenSsl, front, back, verify_certificate_chain, verify_signature}
use ravl.Json.{JsonLibrary, signed_part}
use ravl.Util.Hex.{from_hex, from_hex_t}
use ravl.Sgx.Claims.{ReportBody}
use ravl.Sgx.Tcb.{intel_root_public_key_pem, check_datetime, string_at, number_of}

-- `qe_tcb_level_status`, `qe_tcb_date` and `qe_tcb_level_isv_svn`
pub record QeLevel : Type 0 where
  pub status : Bytes
  pub date : Bytes
  pub isv_svn : ℕ

abbrev pub no_qe_level : QeLevel
no_qe_level = record { status = []; date = []; isv_svn = 0 }

abbrev pub has_qe_status : QeLevel → Bool
has_qe_status level = not (bytes_eq level.status [])

module _ (json : JsonLibrary) (parse_time_point : Bytes → Result ℕ) where
  -- The status and the security version; the date is still a value of JSON.
  unfoldable pub read_qe_level : json.Json → Result (Bytes × ℕ × json.Json)
  read_qe_level j = do
    tcb ← json.at j (codes "tcb")
    isv_svn ← number_of json parse_time_point 16 tcb (codes "isvsvn")
    date ← json.at j (codes "tcbDate")
    status ← string_at json parse_time_point j (codes "tcbStatus")
    ok (status, isv_svn, date)

  -- The first level that the report reaches, as the loop keeps it; the date of a level that it takes
  -- is converted to a string.
  unfoldable pub choose_qe : ReportBody → QeLevel → Bytes → ℕ → json.Json → Result QeLevel
  choose_qe report chosen status isv_svn date =
      if has_qe_status chosen
      then ok chosen
      else if leb isv_svn report.isv_svn
      then (json.get_string date
          >>= (λ d. ok (record { status = status; date = d; isv_svn = isv_svn })))
      else ok chosen

  unfoldable pub qe_levels_loop : ReportBody → QeLevel → List json.Json → Result QeLevel
  unfolding read_qe_level choose_qe
  qe_levels_loop report chosen [] = ok chosen
  qe_levels_loop report chosen (j ∷ js) = do
    (status, isv_svn, date) ← read_qe_level j
    chosen' ← choose_qe report chosen status isv_svn date
    qe_levels_loop report chosen' js

  unfoldable pub find_qe_level : json.Json → ReportBody → Result QeLevel
  unfolding qe_levels_loop
  find_qe_level identity report = do
    levels ← json.at identity (codes "tcbLevels")
    elements ← json.elements levels
    level ← qe_levels_loop report no_qe_level elements
    throw_if (not (has_qe_status level)) "no matching QE TCB level found"
    ok level

  unfoldable pub check_kind : json.Json → Result (Unit {0})
  check_kind identity = do
    version ← number_of json parse_time_point 64 identity (codes "version")
    throw_if (not (version == 2)) "enclaveIdentity version not supported"
    id ← string_at json parse_time_point identity (codes "id")
    throw_if (not (bytes_eq id (codes "QE")) && not (bytes_eq id (codes "QVE")))
        "QE identity type not supported"

  unfoldable pub check_qe_dates : json.Json → Result (Unit {0})
  check_qe_dates identity = do
    issued ← string_at json parse_time_point identity (codes "issueDate")
    check_datetime json parse_time_point issued "QE TCB issue date earlier than permitted"
    next ← string_at json parse_time_point identity (codes "nextUpdate")
    check_datetime json parse_time_point next "QE TCB next update earlier than permitted"

  -- The signer, the product, and the security version, which an equal one does not pass.
  unfoldable pub check_signer : json.Json → ReportBody → QeLevel → Bool → Result (Unit {0})
  check_signer identity report level historical = do
    hex ← string_at json parse_time_point identity (codes "mrsigner")
    mrsigner ← from_hex hex
    throw_if (not (bytes_eq mrsigner report.mr_signer)) "QE mrsigner mismatch"
    isv_prod_id ← number_of json parse_time_point 16 identity (codes "isvprodid")
    throw_if (not (isv_prod_id == report.isv_prod_id)) "QE isv prod id mismatch"
    throw_if (not historical && leb report.isv_svn level.isv_svn) "QE isv svn too small"

  unfoldable pub check_misc_select : json.Json → ReportBody → Result (Unit {0})
  check_misc_select identity report = do
    mask_hex ← string_at json parse_time_point identity (codes "miscselectMask")
    mask ← from_hex_t 4 mask_hex
    hex ← string_at json parse_time_point identity (codes "miscselect")
    misc_select ← from_hex_t 4 hex
    throw_if (not (bit_and report.misc_select mask == misc_select)) "misc select mismatch"

  unfoldable pub check_attributes : json.Json → ReportBody → Result (Unit {0})
  check_attributes identity report = do
    hex ← string_at json parse_time_point identity (codes "attributes")
    mask_hex ← string_at json parse_time_point identity (codes "attributesMask")
    throw_if (not (length hex == 32) || not (length mask_hex == 32))
        "unexpected attribute value sizes"
    flags ← from_hex_t 8 (take 16 hex)
    xfrm ← from_hex_t 8 (drop 16 hex)
    flags_mask ← from_hex_t 8 (take 16 mask_hex)
    xfrm_mask ← from_hex_t 8 (drop 16 mask_hex)
    throw_if (not (bit_and report.attributes.flags flags_mask == flags)) "attribute flags mismatch"
    throw_if (not (bit_and report.attributes.xfrm xfrm_mask == xfrm)) "attribute xfrm mismatch"
    throw_if (not (bit_and report.attributes.flags 2 == 0)) "report purported to be from debug QE"

  -- The body of the `try`: the signature.
  unfoldable pub read_identity : Bytes → ReportBody → Bool → Result Bytes
  unfolding check_kind find_qe_level check_qe_dates check_signer check_misc_select check_attributes
  read_identity text report historical = do
    document ← json.parse text
    identity ← json.at document (codes "enclaveIdentity")
    check_kind identity
    level ← find_qe_level identity report
    check_qe_dates identity
    check_signer identity report level historical
    check_misc_select identity report
    check_attributes identity report
    hex ← string_at json parse_time_point document (codes "signature")
    from_hex hex

  module _ (crypto : OpenSsl) where
    -- It throws or returns true.
    unfoldable pub verify_qe_id : Bytes → Bytes → ReportBody → crypto.Store → Options → Result Bool
    unfolding read_identity
    verify_qe_id issuer_chain text report store options = do
      (chain, _) ←
          verify_certificate_chain crypto issuer_chain store options.certificate_verification false
      leaf ← front chain
      root ← back chain
      key ← crypto.public_key leaf
      throw_if
          (options.check_root_certificate_manufacturer_key
            && not (crypto.has_public_key root intel_root_public_key_pem))
          "QE identity issuer root certificate does not use the expected Intel SGX public key"
      signature ←
          rethrow "incorrectly formatted SGX QE ID: {}"
            (read_identity text report options.historical)
      message ← signed_part text (codes "\"enclaveIdentity\":") (codes ",\"signature\":\"")
      good ← verify_signature crypto key message signature
      throw_if (not good) "QE identity signature verification failed"
      ok true
