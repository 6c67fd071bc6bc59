-- ===== src/Snp/Urls.antt =====
-- `download_root_ca_pem`, `download_endorsements` and `prepare_endorsements` of
-- include/ravl/sev_snp_impl.h.
use ravl.Prelude.{
  ℕ, zero, suc, ◌+◌, ◌/◌, ◌%◌, ◌^◌, not, ◌&&◌, List, [], ◌∷◌, ◌++◌, Option, none, some, Bytes,
  codes, ltb, ◌==◌, if◌then◌else◌,
}
use ravl.Result.{Result, ok, throw_if, ◌>>=◌, ◌>>◌}
use ravl.Options.{Options}
use ravl.Util.Hex.{to_hex, hex_digit}
use ravl.Http.Message.{HttpRequests, get_request}
use ravl.Sgx.Layout.{bytes_at, number_at}
use ravl.Sgx.Consume.{is_empty}
use ravl.Sgx.Extension.{decimal, two_digits}

-- A field of an attestation report that is cast to a number keeps its little-endian value.
pub record TcbVersion : Type 0 where
  pub boot_loader : ℕ
  pub tee : ℕ
  pub snp : ℕ
  pub microcode : ℕ
  -- the eight bytes as a number
  pub whole : ℕ

unfoldable pub tcb_version_at : Bytes → ℕ → Result TcbVersion
tcb_version_at evidence offset = do
  boot_loader ← number_at evidence offset 1
  tee ← number_at evidence (offset + 1) 1
  snp ← number_at evidence (offset + 6) 1
  microcode ← number_at evidence (offset + 7) 1
  whole ← number_at evidence offset 8
  ok (record {
    boot_loader = boot_loader;
    tee = tee;
    snp = snp;
    microcode = microcode;
    whole = whole;
  })

-- `{}` of a `uint8_t`.
abbrev pub decimal_byte : ℕ → Bytes
decimal_byte n = if ltb n 100 then decimal n else (b'0' + n / 100) ∷ two_digits (n % 100)

-- The `k` lowest hexadecimal digits, and `{:08x}`: at least eight digits, and no zero before them.
abbrev pub hex_digits : ℕ → ℕ → Bytes
hex_digits zero n = []
hex_digits (suc k) n = hex_digit (n / 16 ^ k % 16) ∷ hex_digits k n

abbrev pub strip_zeros : ℕ → Bytes → Bytes
strip_zeros zero s = s
strip_zeros (suc k) [] = []
strip_zeros (suc k) (c ∷ s) = if c == b'0' then strip_zeros k s else c ∷ s

unfoldable pub hex_number : ℕ → Bytes
unfolding hex_digit
hex_number n = strip_zeros 8 (hex_digits 16 n)

unfoldable pub kds_url : Bytes
kds_url = codes "https://kdsintf.amd.com"

-- "{}/vcek/v1/{}/" with the rest of the path
unfoldable pub vcek_path : Bytes → Bytes → Bytes
vcek_path product_name rest =
    kds_url ++ (codes "/vcek/v1/" ++ (product_name ++ (codes "/" ++ rest)))

abbrev pub chain_url : Bytes → Bytes
chain_url product_name = vcek_path product_name (codes "cert_chain")

abbrev pub crl_url : Bytes → Bytes
crl_url product_name = vcek_path product_name (codes "crl")

unfoldable pub tcb_parameters : TcbVersion → Bytes
tcb_parameters v =
    codes "blSPL="
    ++ (decimal_byte v.boot_loader
        ++ (codes "&teeSPL="
            ++ (decimal_byte v.tee
                ++ (codes "&snpSPL="
                    ++ (decimal_byte v.snp ++ (codes "&ucodeSPL=" ++ decimal_byte v.microcode))))))

abbrev pub vcek_url : Bytes → Bytes → TcbVersion → Bytes
vcek_url product_name hwid v = vcek_path product_name (hwid ++ (codes "?" ++ tcb_parameters v))

abbrev pub download_root_ca_pem : Bytes → HttpRequests
download_root_ca_pem product_name = get_request (chain_url product_name) ∷ []

-- `vformat` of the fmt library, which throws on a malformed template.
module _ (vformat : Bytes → List Bytes → Result Bytes) where
  unfoldable pub download_endorsements : Bytes → Bytes → TcbVersion → Options → Result HttpRequests
  unfolding hex_number
  download_endorsements product_name chip_id v options =
      elim options.sev_snp_endorsement_cache_url_template [
        | some tmpl ↦
            vformat tmpl (to_hex chip_id ∷ hex_number v.whole ∷ [])
            >>= (λ chain. ok (get_request chain ∷ get_request (crl_url product_name) ∷ []))
        | none ↦ ok (
            get_request (vcek_url product_name (to_hex chip_id) v)
            ∷ get_request (chain_url product_name)
            ∷ get_request (crl_url product_name)
            ∷ [])
      ]

  unfoldable pub prepare_endorsements : Bytes → Bytes → Options → Result (Option HttpRequests)
  unfolding tcb_version_at download_endorsements
  prepare_endorsements evidence endorsements options = do
    version ← number_at evidence 0 4
    throw_if (not (version == 2)) "unsupported attestation format version"
    if not (is_empty endorsements) && not options.fresh_endorsements
        then ok (elim options.root_ca_certificate [
          | none ↦
              if options.fresh_root_ca_certificate
              then some (download_root_ca_pem (codes "Milan"))
              else none
          | some root ↦ none
        ])
        else (bytes_at evidence 416 64 >>= (λ chip_id. tcb_version_at evidence 384 >>= (λ v.
            download_endorsements (codes "Milan") chip_id v options >>= (λ rs. ok (some rs)))))
