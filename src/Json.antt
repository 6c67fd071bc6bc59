-- ===== src/Json.antt =====
-- The operations of the JSON library that the verifiers use, and where they look for the part of a
-- document that was signed.
use ravl.Prelude.{ℕ, ◌+◌, Bool, List, none, some, Bytes, length}
use ravl.Util.Search.{find_first, find_last, between}
use ravl.Result.{Result, err, runtime_error}

-- `at` is `operator[]`, which gives null for a missing key; `get_unsigned w` is a `get` of a type of
-- `w` bits, and `elements` are what a range-based loop visits.
pub record JsonLibrary : Type 1 where
  pub Json : Type 0
  pub parse : Bytes → Result Json
  pub at : Json → Bytes → Result Json
  pub is_null : Json → Bool
  pub contains : Json → Bytes → Bool
  pub get_string : Json → Result Bytes
  pub get_unsigned : ℕ → Json → Result ℕ
  pub elements : Json → Result (List Json)

-- From behind the first `pre` to the last `post`.
unfoldable pub signed_part : Bytes → Bytes → Bytes → Result Bytes
signed_part text pre post = elim (find_first text pre) [
  | none ↦ err (runtime_error "does not contain signature")
  | some l ↦ elim (find_last text post) [
    | none ↦ err (runtime_error "does not contain signature")
    | some r ↦ between text (l + length pre) r
  ]
]
