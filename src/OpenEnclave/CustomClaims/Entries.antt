-- ===== src/OpenEnclave/CustomClaims/Entries.antt =====
-- Which entries `extract_custom_claims` reads.
use ravl.Prelude.{
  ℕ, suc, ◌+◌, ◌-◌, ◌^◌, ◌<◌, ◌≤◌, ◌≡◌, refl, sym, ap, ◌∙◌, [], ◌∷◌, ◌++◌, Bytes, length, arith,
  length-append, append_assoc,
}
use ravl.Result.{Exception, ok, err, runtime_error}
use ravl.Http.Message.{Headers, emplace_header}
use ravl.Sgx.Layout.Parts.{bytes_between, number_between}
use ravl.Sgx.Layout.{cell, bytes_at, number_at, verify_within, verify_within_ok, little_endian}
use ravl.OpenEnclave.CustomClaims.{
  verify_size, read_claim, read_claims, read_all, extract_custom_claims,
}

-- A `uint64_t` below 2 ^ 32.
abbrev pub wide : ℕ → Bytes
wide n = cell n ++ cell 0

-- The layout of one claim, and of the header for `k` claims.
abbrev pub encode_claim : Bytes → Bytes → Bytes
encode_claim name value = wide (length name + 1) ++ (wide (length value) ++ (name ++ (0 ∷ value)))

abbrev pub encode_header : ℕ → Bytes
encode_header k = wide 1 ++ wide k

little_endian-wide : (n : ℕ) → n < 2 ^ 32 → little_endian (wide n) ≡ n
little_endian-wide n h = omega (arith, h)

read_claim_lem :
    (bytes : Bytes) (p name_size value_size : ℕ) (name value : Bytes)
    → p + 16 + name_size + value_size ≤ length bytes
    → number_at bytes p 8 ≡ ok name_size
    → number_at bytes (p + 8) 8 ≡ ok value_size
    → 0 < name_size
    → 0 < value_size
    → name_size < 2 ^ 63
    → value_size < 2 ^ 63
    → number_at bytes (p + 16 + name_size - 1) 1 ≡ ok 0
    → bytes_at bytes (p + 16) (name_size - 1) ≡ ok name
    → bytes_at bytes (p + 16 + name_size) value_size ≡ ok value
    → read_claim bytes p ≡ ok (name, value)
unfolding read_claim verify_size
read_claim_lem bytes p n v name value fits e₁ e₂ h₁ h₂ h₃ h₄ e₃ e₄ e₅ =
    let w₁ =
      verify_within_ok (record { offset = p; size = 16 }) bytes (omega arith)
        (omega (arith, fits)) in
    let w₂ =
      verify_within_ok (record { offset = p + 16; size = n }) bytes h₁ (omega (arith, fits)) in
    let w₃ = verify_within_ok (record { offset = p + 16 + n; size = v }) bytes h₂ fits in
    ground (arith, w₁, w₂, w₃, e₁, e₂, e₃, e₄, e₅, h₁, h₂, h₃, h₄)

module _ (pre name value post : Bytes) (some_value : 0 < length value)
    (short_name : length name < 2 ^ 31) (short_value : length value < 2 ^ 31) where
  abbrev whole : Bytes
  whole = pre ++ (encode_claim name value ++ post)

  abbrev p₁ : Bytes
  p₁ = pre ++ wide (length name + 1)

  abbrev p₂ : Bytes
  p₂ = p₁ ++ wide (length value)

  abbrev p₃ : Bytes
  p₃ = p₂ ++ name

  abbrev p₄ : Bytes
  p₄ = p₃ ++ (0 ∷ [])

  places :
      (length p₁ ≡ length pre + 8)
      × (length p₂ ≡ length pre + 16)
      × (length p₃ ≡ length pre + 16 + length name)
      × (length p₄ ≡ length pre + 17 + length name)
      × (length pre + 17 + length name + length value ≤ length whole)
  places = (
    simp length-append refl,
    simp length-append (omega arith),
    simp length-append (omega arith),
    simp length-append (omega arith),
    simp length-append (omega arith),
  )

  read_claim-encode_claim : read_claim whole (length pre) ≡ ok (name, value)
  read_claim-encode_claim =
      let (l₁, l₂, l₃, l₄, l₅) = places in
      let n = length name + 1 in
      let v = length value in
      read_claim_lem whole (length pre) n v name value (omega (arith, l₅))
        (number_between whole pre (wide n) (wide v ++ (name ++ (0 ∷ (value ++ post))))
            (simp append_assoc) _ _ refl refl
          ∙ ap ok (little_endian-wide n (omega (arith, short_name))))
        (number_between whole p₁ (wide v) (name ++ (0 ∷ (value ++ post))) (simp append_assoc) _ _
            (omega (arith, l₁)) refl
          ∙ ap ok (little_endian-wide v (omega (arith, short_value))))
        (omega arith) some_value (omega (arith, short_name)) (omega (arith, short_value))
        (number_between whole p₃ (0 ∷ []) (value ++ post) (simp append_assoc) _ _
          (omega (arith, l₃)) refl)
        (bytes_between whole p₂ name (0 ∷ (value ++ post)) (simp append_assoc) _ _
          (omega (arith, l₂)) (omega arith))
        (bytes_between whole p₄ value post (simp append_assoc) _ _ (omega (arith, l₄)) refl)

header_read :
    (k : ℕ) (rest : Bytes) (m : Headers)
    → k < 2 ^ 32
    → extract_custom_claims (encode_header k ++ rest) m
      ≡ read_claims (encode_header k ++ rest) k 0 m
unfolding extract_custom_claims read_all
header_read k rest m h =
    let bytes = encode_header k ++ rest in
    ground (
      arith,
      number_between bytes [] (wide 1) (wide k ++ rest) refl 0 8 refl refl,
      number_between bytes (wide 1) (wide k) rest refl 8 8 refl refl
          ∙ ap ok (little_endian-wide k h),
    )

first_read :
    (bytes name value : Bytes) (k : ℕ) (m : Headers)
    → read_claim bytes 16 ≡ ok (name, value)
    → read_claims bytes (suc k) 0 m ≡ read_claims bytes k 1 (emplace_header m name value)
unfolding read_claims
first_read bytes name value k m e = rw e refl

-- Custom claims with a single entry, of less than 2 ^ 31 bytes each and with a value that is not
-- empty, whatever follows it: the map gets this claim, unless it has one of the name.
extract_custom_claims-encode_claim :
    (name value rest : Bytes) (m : Headers)
    → 0 < length value
    → length name < 2 ^ 31
    → length value < 2 ^ 31
    → extract_custom_claims (encode_header 1 ++ (encode_claim name value ++ rest)) m
      ≡ ok (emplace_header m name value)
unfolding read_claims
extract_custom_claims-encode_claim name value rest m h₁ h₂ h₃ =
    header_read 1 (encode_claim name value ++ rest) m (omega arith)
    ∙ first_read (encode_header 1 ++ (encode_claim name value ++ rest)) name value 0 m
        (read_claim-encode_claim (encode_header 1) name value rest h₁ h₂ h₃)

-- An entry with a name that is said to be larger than all of the bytes.
read_claim_large :
    (bytes : Bytes) (p n : ℕ)
    → (p + 16 ≤ length bytes → number_at bytes p 8 ≡ ok n)
    → length bytes < n
    → n < 2 ^ 63
    → read_claim bytes p ≡ err (runtime_error "invalid pointer")
unfolding read_claim verify_size verify_within
read_claim_large bytes p n e h₁ h₂ = ground (arith, e, h₁, h₂)

second_read :
    (bytes name value : Bytes) (k : ℕ) (m : Headers) (x : Exception)
    → read_claim bytes 16 ≡ ok (name, value)
    → read_claim bytes 32 ≡ err x
    → read_claims bytes (suc (suc k)) 0 m ≡ err x
unfolding read_claims
second_read bytes name value k m x e f = rw (e, f) refl

-- Two or more claims, the first with a name whose first eight bytes are, as a number, beyond the
-- size of all the claims (as those of a text are): the second claim is not read. Its entry is
-- looked for where the first claim's name is, and the call throws.
pub extract_custom_claims_second :
    (k : ℕ) (start name value rest : Bytes) (m : Headers)
    → suc (suc k) < 2 ^ 32
    → length start ≡ 8
    → little_endian start < 2 ^ 63
    → 0 < length value
    → length (start ++ name) < 2 ^ 31
    → length value < 2 ^ 31
    → length (encode_header (suc (suc k)) ++ (encode_claim (start ++ name) value ++ rest))
      < little_endian start
    → extract_custom_claims
        (encode_header (suc (suc k)) ++ (encode_claim (start ++ name) value ++ rest))
        m
      ≡ err (runtime_error "invalid pointer")
extract_custom_claims_second k start name value rest m few eight below h₁ h₂ h₃ large =
    let claim = encode_claim (start ++ name) value ++ rest in
    let bytes = encode_header (suc (suc k)) ++ claim in
    let pre =
      encode_header (suc (suc k)) ++ (wide (length (start ++ name) + 1) ++ wide (length value)) in
    header_read (suc (suc k)) claim m few
    ∙ second_read bytes (start ++ name) value k m (runtime_error "invalid pointer")
        (read_claim-encode_claim (encode_header (suc (suc k))) (start ++ name) value rest h₁ h₂ h₃)
        (read_claim_large bytes 32 (little_endian start)
          (λ _.
            number_between bytes pre start (name ++ (0 ∷ (value ++ rest))) (simp append_assoc) 32 8
              refl (sym eight))
          large below)
