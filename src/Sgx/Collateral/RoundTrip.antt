-- ===== src/Sgx/Collateral/RoundTrip.antt =====
-- The collateral format: the constructor reads back every collateral that is laid out in it.
use ravl.Prelude.{
  ℕ, ◌*◌, ◌^◌, ◌<◌, ◌≡◌, refl, ap, ◌∙◌, [], ◌++◌, Bytes, length, arith, append_assoc, append-nil,
  length-append,
}
use ravl.Result.{ok}
use ravl.Util.Cursor.{get, put}
use ravl.Util.Cursor.Reads.{get-put, get_n-append, length-put}
use ravl.Sgx.Collateral.{Collateral, get_field, parse_collateral}
use native.Mathlib.Nat.{mod-eq_of_lt}

-- A byte string behind its length.
abbrev pub field : Bytes → Bytes
field s = put 8 (length s) ++ s

-- The layout of `sgx_ql_qve_collateral_t` with its strings in line.
abbrev pub encode : Collateral → Bytes
encode c =
    put 2 c.major_version
    ++ (put 2 c.minor_version
        ++ (put 4 c.tee_type
            ++ (field c.pck_crl_issuer_chain
                ++ (field c.root_ca_crl
                    ++ (field c.pck_crl
                        ++ (field c.tcb_info_issuer_chain
                            ++ (field c.tcb_info
                                ++ (field c.qe_identity_issuer_chain ++ field c.qe_identity))))))))

-- Its numbers fit their types, and it has no root certificate, for which the format has no place.
pub record Fits (c : Collateral) : Type 0 where
  pub major : c.major_version < 2 ^ 16
  pub minor : c.minor_version < 2 ^ 16
  pub tee : c.tee_type < 2 ^ 32
  pub no_root : c.root_ca ≡ []
  pub short : length (encode c) < 2 ^ 63

module _ (bytes : Bytes) (short : length bytes < 2 ^ 63) where
  read_number :
      (w t : ℕ) (pre post : Bytes)
      → bytes ≡ pre ++ (put w t ++ post)
      → t < 2 ^ (8 * w)
      → get w bytes (length pre) ≡ ok (t, length (pre ++ put w t))
  read_number w t pre post e h = rw e (
      ground (
        arith,
        get-put w t pre post (rw e at short),
        mod-eq_of_lt h,
        length-append pre (put w t),
        length-put w t,
      ))

  read_field :
      (s pre post : Bytes)
      → bytes ≡ pre ++ (field s ++ post)
      → get_field bytes (length pre) ≡ ok (s, length (pre ++ field s))
  unfolding get_field
  read_field s pre post e =
      let size : length s < 2 ^ (8 * 8) = omega (
        arith,
        ap length e,
        length-append pre (field s ++ post),
        length-append (field s) post,
        length-append (put 8 (length s)) s,
      ) in
      let first =
        read_number 8 (length s) pre (s ++ post)
          (e ∙ ap (λ l. pre ++ l) (append_assoc (put 8 (length s)) s post)) size in
      let whole : bytes ≡ (pre ++ put 8 (length s)) ++ (s ++ post) = e ∙ simp append_assoc in
      ground (
        arith,
        first,
        rw (← whole) at (get_n-append s (pre ++ put 8 (length s)) post (rw whole at short)),
        append_assoc pre (put 8 (length s)) s,
        length-append (pre ++ put 8 (length s)) s,
      )

-- The constructor reads back every collateral whose numbers fit their types and that has no root
-- certificate, from its layout.
pub parse_collateral-encode : (c : Collateral) → Fits c → parse_collateral (encode c) ≡ ok c
unfolding parse_collateral
parse_collateral-encode c fits =
    let b = encode c in
    let short : length b < 2 ^ 63 = fits.short in
    let x₁ = put 2 c.major_version in
    let x₂ = x₁ ++ put 2 c.minor_version in
    let x₃ = x₂ ++ put 4 c.tee_type in
    let x₄ = x₃ ++ field c.pck_crl_issuer_chain in
    let x₅ = x₄ ++ field c.root_ca_crl in
    let x₆ = x₅ ++ field c.pck_crl in
    let x₇ = x₆ ++ field c.tcb_info_issuer_chain in
    let x₈ = x₇ ++ field c.tcb_info in
    let x₉ = x₈ ++ field c.qe_identity_issuer_chain in
    let y₉ = field c.qe_identity in
    let y₈ = field c.qe_identity_issuer_chain ++ y₉ in
    let y₇ = field c.tcb_info ++ y₈ in
    let y₆ = field c.tcb_info_issuer_chain ++ y₇ in
    let y₅ = field c.pck_crl ++ y₆ in
    let y₄ = field c.root_ca_crl ++ y₅ in
    let y₃ = field c.pck_crl_issuer_chain ++ y₄ in
    let y₂ = put 4 c.tee_type ++ y₃ in
    let s₁ =
      read_number b short 2 c.major_version [] (put 2 c.minor_version ++ y₂) refl fits.major in
    let s₂ = read_number b short 2 c.minor_version x₁ y₂ refl fits.minor in
    let s₃ = read_number b short 4 c.tee_type x₂ y₃ (simp append_assoc) fits.tee in
    let s₄ = read_field b short c.pck_crl_issuer_chain x₃ y₄ (simp append_assoc) in
    let s₅ = read_field b short c.root_ca_crl x₄ y₅ (simp append_assoc) in
    let s₆ = read_field b short c.pck_crl x₅ y₆ (simp append_assoc) in
    let s₇ = read_field b short c.tcb_info_issuer_chain x₆ y₇ (simp append_assoc) in
    let s₈ = read_field b short c.tcb_info x₇ y₈ (simp append_assoc) in
    let s₉ = read_field b short c.qe_identity_issuer_chain x₈ y₉ (simp append_assoc) in
    let s₁₀ = read_field b short c.qe_identity x₉ [] (simp (append_assoc, append-nil)) in
    let whole : b ≡ x₉ ++ field c.qe_identity = simp append_assoc in
    ground (arith, s₁, s₂, s₃, s₄, s₅, s₆, s₇, s₈, s₉, s₁₀, fits.no_root, ap length whole)
