-- ===== src/Aci/Cose.antt =====
-- include/ravl/cose_common.h, and the protected header that include/ravl/uvm_endorsements.h decodes.
use ravl.Prelude.{ℕ, String, Bool, not, ◌||◌, List, [], ◌∷◌, Option, none, some, Bytes, false, ◌==◌}
use ravl.Result.{Result, ok, err, runtime_error, formatted, throw_if, ◌>>=◌, ◌>>◌}

-- An `int64_t`; `negsuc n` is `- n - 1`.
pub data ℤ : Type 0 where
  pos negsuc : ℕ → ℤ

abbrev pub int_eq : ℤ → ℤ → Bool
int_eq (pos a) (pos b) = a == b
int_eq (negsuc a) (negsuc b) = a == b
int_eq a b = false

-- ES256, ES384 and ES512 are -7, -35 and -36, and PS256, PS384 and PS512 are -37, -38 and -39.
unfoldable pub is_ecdsa_alg : ℤ → Bool
is_ecdsa_alg cose_alg =
    int_eq cose_alg (negsuc 6) || int_eq cose_alg (negsuc 34) || int_eq cose_alg (negsuc 35)

unfoldable pub is_rsa_alg : ℤ → Bool
is_rsa_alg cose_alg =
    int_eq cose_alg (negsuc 36) || int_eq cose_alg (negsuc 37) || int_eq cose_alg (negsuc 38)

-- An item of any type: the program tells byte strings, arrays and the other types apart.
pub data Item : Type 0 where
  byte_string : Bytes → Item
  array : Item
  other : ℕ → Item

-- What `QCBORDecode_GetNext` answers, but for "no more items".
pub data Next : Type 0 where
  not_well_formed : Next
  next : Item → Next

-- What `QCBORDecode_GetItemsInMap` finds for the five labels; it checks their types.
pub record HeaderItems : Type 0 where
  pub alg : Option ℤ
  pub content_type : Option Bytes
  pub x5_chain : Option Item
  pub iss : Option Bytes
  pub feed : Option Bytes

-- QCBOR, with the calls between two looks at its error taken together: the outer array is entered;
-- the wrapped map is entered and its items are read; the array of the chain is entered, read to its
-- end and left; and the map is left.
pub record Qcbor : Type 1 where
  pub Context : Type 0
  pub enter_array : Bytes → Option Context
  pub nth_tag_of_last : Context → ℕ
  pub header_items : Context → Option (HeaderItems × Context)
  pub x5_chain_items : Context → List Next × Context
  pub exit_map : Context → Bool

-- The members have default values.
pub record ProtectedHeader : Type 0 where
  pub alg : ℤ
  pub content_type : Bytes
  pub x5_chain : List Bytes
  pub iss : Bytes
  pub feed : Bytes

abbrev pub value_or {ℓ} : {A : Type ℓ} → A → Option A → A
value_or a none = a
value_or a (some b) = b

unfoldable pub read_chain : List Next → Result (List Bytes)
read_chain [] = ok []
read_chain (not_well_formed ∷ items) = err (runtime_error "Item in x5chain is not well-formed")
read_chain (next (byte_string b) ∷ items) = do rest ← read_chain items; ok (b ∷ rest)
read_chain (next array ∷ items) =
    err (runtime_error "Next item in x5chain was not of type byte string")
read_chain (next (other t) ∷ items) =
    err (runtime_error "Next item in x5chain was not of type byte string")

abbrev pub not_empty : List Bytes → Result (List Bytes)
not_empty [] = err (runtime_error "x5chain array length was 0 in COSE header")
not_empty (b ∷ bs) = ok (b ∷ bs)

-- `throw COSEDecodeError(message)`, if a call of QCBOR has failed
abbrev pub decoded {ℓ} : {A : Type ℓ} → String → Option A → Result A
decoded message none = err (runtime_error message)
decoded message (some a) = ok a

module _ (qcbor : Qcbor) where
  unfoldable pub decode_x5chain : qcbor.Context → Item → Result (List Bytes × qcbor.Context)
  unfolding read_chain
  decode_x5chain ctx array = do
    parsed ← read_chain (qcbor.x5_chain_items ctx).0
    chain ← not_empty parsed
    ok (chain, (qcbor.x5_chain_items ctx).1)
  decode_x5chain ctx (byte_string b) = ok (b ∷ [], ctx)
  decode_x5chain ctx (other t) =
      err (formatted "Value type {} of x5chain in COSE header is not array or byte string" (t ∷ []))

  abbrev pub optional_x5chain : qcbor.Context → Option Item → Result (List Bytes × qcbor.Context)
  optional_x5chain ctx none = ok ([], ctx)
  optional_x5chain ctx (some item) = decode_x5chain ctx item

  unfoldable pub decode_protected_header : Bytes → Result ProtectedHeader
  unfolding decode_x5chain
  decode_protected_header uvm_endorsements_raw = do
    ctx ← decoded "Failed to parse COSE_Sign1 outer array" (qcbor.enter_array uvm_endorsements_raw)
    throw_if (not (qcbor.nth_tag_of_last ctx == 18)) "Failed to parse COSE_Sign1 tag"
    (items, ctx₁) ← decoded "Failed to decode protected header" (qcbor.header_items ctx)
    (x5_chain, ctx₂) ← optional_x5chain ctx₁ items.x5_chain
    throw_if (not (qcbor.exit_map ctx₂)) "Failed to decode protected header"
    ok (record {
      alg = value_or (pos 0) items.alg;
      content_type = value_or [] items.content_type;
      x5_chain = x5_chain;
      iss = value_or [] items.iss;
      feed = value_or [] items.feed;
    })
