-- ===== src/Sgx/Tcb/Accepted.antt =====
-- What holds of the TCB information that is accepted.
use mathlib.Core.Path.{subst}
use ravl.Prelude.{ℕ, ◌≡◌, refl, ap, ◌∙◌, true, not, List, Bytes, codes}
use ravl.Result.{
  Result, ok, rethrow, throw_if, bind_returned, throw_if_passed, rethrow_passed, ok-injective,
}
use ravl.Crypto.{OpenSsl, verify_signature}
use ravl.Json.{JsonLibrary, signed_part}
use ravl.Util.Hex.{from_hex}
use ravl.Sgx.Extension.{CertificateExtension}
use ravl.Sgx.Tcb.{
  TcbLevel, no_level, has_status, check_version, check_dates, check_platform, find_level, string_at,
  json_vector_eq, levels_loop, read_tcb_info, verify_tcb_json,
}
use ravl.Sgx.Tcb.Levels.{IsFirst, levels_loop-IsFirst}

module _ (json : JsonLibrary) (parse_time_point : Bytes → Result ℕ) where
  -- The certificate's extension names the platform of the TCB information.
  pub record IsSame (tcb_info : json.Json) (ext : CertificateExtension) : Type 0 where
    pub fmspc : json_vector_eq json parse_time_point tcb_info (codes "fmspc") ext.fmspc ≡ ok true
    pub pceid : json_vector_eq json parse_time_point tcb_info (codes "pceId") ext.pceid ≡ ok true

  check_platform-IsSame :
      (tcb_info : json.Json) (ext : CertificateExtension) {u : Unit {0}}
      → check_platform json parse_time_point tcb_info ext ≡ ok u
      → IsSame tcb_info ext
  unfolding check_platform
  check_platform-IsSame tcb_info ext e =
      let (fmspc, e₁, f₁) =
        bind_returned (json_vector_eq json parse_time_point tcb_info (codes "fmspc") ext.fmspc) _
          e in
      let (_, e₂, t₂) = bind_returned (throw_if (not fmspc) "fmspc mismatch") _ e₁ in
      let (pceid, e₃, f₃) =
        bind_returned (json_vector_eq json parse_time_point tcb_info (codes "pceId") ext.pceid) _
          e₂ in
      let (_, e₄, t₄) = bind_returned (throw_if (not pceid) "pceid mismatch") _ e₃ in
      record {
        fmspc = f₁ ∙ ap ok (throw_if_passed fmspc _ t₂);
        pceid = f₃ ∙ ap ok (throw_if_passed pceid _ t₄);
      }

  -- The level is the first of the TCB information's that the platform reaches.
  pub record IsChosen (tcb_info : json.Json) (ext : CertificateExtension) (level : TcbLevel)
      : Type 0 where
    pub levels : json.Json
    pub elements : List json.Json
    pub at_levels : json.at tcb_info (codes "tcbLevels") ≡ ok levels
    pub level_elements : json.elements levels ≡ ok elements
    pub first : IsFirst json parse_time_point ext elements level
    pub status : has_status level ≡ true

  find_level-IsChosen :
      (tcb_info : json.Json) (ext : CertificateExtension) (level : TcbLevel)
      → find_level json parse_time_point tcb_info ext ≡ ok level
      → IsChosen tcb_info ext level
  unfolding find_level
  find_level-IsChosen tcb_info ext level e =
      let (levels, e₁, f₁) = bind_returned (json.at tcb_info (codes "tcbLevels")) _ e in
      let (elements, e₂, f₂) = bind_returned (json.elements levels) _ e₁ in
      let (chosen, e₃, f₃) =
        bind_returned (levels_loop json parse_time_point ext no_level elements) _ e₂ in
      let (_, e₄, t₄) =
        bind_returned (throw_if (not (has_status chosen)) "no matching TCB level found") _ e₃ in
      let has = throw_if_passed (has_status chosen) _ t₄ in
      subst (IsChosen tcb_info ext) (ok-injective chosen level e₄) (record {
        levels = levels;
        elements = elements;
        at_levels = f₁;
        level_elements = f₂;
        first = levels_loop-IsFirst json parse_time_point ext no_level chosen elements refl has f₃;
        status = has;
      })

  -- What the text says of the platform.
  pub record IsRead (text : Bytes) (ext : CertificateExtension) (level : TcbLevel) : Type 0 where
    pub document : json.Json
    pub tcb_info : json.Json
    pub parsed : json.parse text ≡ ok document
    pub at_tcb_info : json.at document (codes "tcbInfo") ≡ ok tcb_info
    pub same_platform : IsSame tcb_info ext
    pub chosen : IsChosen tcb_info ext level

  read_tcb_info-IsRead :
      (text : Bytes) (ext : CertificateExtension) (level : TcbLevel) (signature : Bytes)
      → read_tcb_info json parse_time_point text ext ≡ ok (level, signature)
      → IsRead text ext level
  unfolding read_tcb_info
  read_tcb_info-IsRead text ext level signature e =
      let (document, e₁, f₁) = bind_returned (json.parse text) _ e in
      let (tcb_info, e₂, f₂) = bind_returned (json.at document (codes "tcbInfo")) _ e₁ in
      let (_, e₃, _) = bind_returned (check_version json parse_time_point tcb_info) _ e₂ in
      let (_, e₄, _) = bind_returned (check_dates json parse_time_point tcb_info) _ e₃ in
      let (_, e₅, f₅) = bind_returned (check_platform json parse_time_point tcb_info ext) _ e₄ in
      let (chosen, e₆, f₆) = bind_returned (find_level json parse_time_point tcb_info ext) _ e₅ in
      let (hex, e₇, _) =
        bind_returned (string_at json parse_time_point document (codes "signature")) _ e₆ in
      let (sig, e₈, _) = bind_returned (from_hex hex) _ e₇ in
      let same : chosen ≡ level =
        ap (λ p. p.0) (ok-injective (chosen, sig) (level, signature) e₈) in
      record {
        document = document;
        tcb_info = tcb_info;
        parsed = f₁;
        at_tcb_info = f₂;
        same_platform = check_platform-IsSame tcb_info ext f₅;
        chosen = find_level-IsChosen tcb_info ext level (f₆ ∙ ap ok same);
      }

  module _ (crypto : OpenSsl) where
    -- The signature of the key over the part of the text between `{"tcbInfo":` and the last
    -- `,"signature"`.
    pub record IsAccepted (text : Bytes) (ext : CertificateExtension) (key : crypto.Key)
        (level : TcbLevel) : Type 0 where
      pub signature : Bytes
      pub message : Bytes
      pub read : IsRead text ext level
      pub located : signed_part text (codes "{\"tcbInfo\":") (codes ",\"signature\"") ≡ ok message
      pub signed : verify_signature crypto key message signature ≡ ok true

    -- A TCB level that `verify_tcb_json` returns: it is the first level of the parsed document that
    -- has a status and that every component of the certificate's extension and its PCE reach, the
    -- document is about the extension's platform, and the key has signed the located part of the text.
    pub verify_tcb_json-IsAccepted :
        (text : Bytes) (ext : CertificateExtension) (key : crypto.Key) (level : TcbLevel)
        → verify_tcb_json json parse_time_point crypto text ext key ≡ ok level
        → IsAccepted text ext key level
    unfolding verify_tcb_json
    verify_tcb_json-IsAccepted text ext key level e =
        let ((chosen, signature), e₁, f₁) =
          bind_returned
            (rethrow "incorrectly formatted SGX TCB: {}"
              (read_tcb_info json parse_time_point text ext))
            _ e in
        let (message, e₂, f₂) =
          bind_returned (signed_part text (codes "{\"tcbInfo\":") (codes ",\"signature\"")) _ e₁ in
        let (good, e₃, f₃) = bind_returned (verify_signature crypto key message signature) _ e₂ in
        let (_, e₄, t₄) = bind_returned (throw_if (not good) _) _ e₃ in
        let same = ok-injective chosen level e₄ in
        let e₅ =
          rethrow_passed _ (read_tcb_info json parse_time_point text ext) (chosen, signature) f₁ in
        record {
          signature = signature;
          message = message;
          read =
              read_tcb_info-IsRead text ext level signature (e₅ ∙ ap (λ l. ok (l, signature)) same);
          located = f₂;
          signed = f₃ ∙ ap ok (throw_if_passed good _ t₄);
        }
