-- ===== src/OpenEnclave/Endorsements/Layout.antt =====
-- The layout of Open Enclave's endorsements, and that the table read from it has its items.
use ravl.Prelude.{
  ℕ, zero, suc, ◌+◌, ◌*◌, ◌^◌, ◌<◌, ◌≡◌, refl, List, [], ◌∷◌, ◌++◌, some, Bytes, length, arith,
  length-append, get_elem?, append_assoc,
}
use mathlib.Core.Option.{some-injective}
use ravl.Result.{ok}
use ravl.Sgx.Layout.Parts.{number_at-cell, bytes_at-append}
use ravl.Sgx.Layout.{bytes_at, number_at, cell}

abbrev pub cells : List ℕ → Bytes
cells [] = []
cells (n ∷ ns) = cell n ++ cells ns

abbrev pub joined : List Bytes → Bytes
joined [] = []
joined (x ∷ xs) = x ++ joined xs

-- Where each item starts, the first of them at `o`.
abbrev pub starts : ℕ → List Bytes → List ℕ
starts o [] = []
starts o (x ∷ xs) = o ∷ starts (o + length x) xs

pub length-cells : (ns : List ℕ) → length (cells ns) ≡ 4 * length ns
length-cells [] = refl
length-cells (n ∷ ns) = omega (arith, length-cells ns)

-- The same place, counted behind `x`.
shift {ℓ} :
    {A : Type ℓ} (pre x xs post : List A) → pre ++ ((x ++ xs) ++ post) ≡ (pre ++ x) ++ (xs ++ post)
shift pre x xs post = simp append_assoc

pub number_at-cells :
    (ns : List ℕ) (pre post : Bytes) (i n : ℕ)
    → get_elem? ns i ≡ some n
    → n < 2 ^ 32
    → (at : ℕ) → at ≡ length pre + 4 * i
    → number_at (pre ++ (cells ns ++ post)) at 4 ≡ ok n
number_at-cells [] pre post i n e h at a = absurd cc
number_at-cells (m ∷ ns) pre post zero n e h at a =
    let same : m ≡ n = some-injective _ _ e in
    let place : at ≡ length pre = omega (arith, a) in
    rw (same, place) (number_at-cell pre (cells ns ++ post) n h)
number_at-cells (m ∷ ns) pre post (suc i) n e h at a = rw (shift pre (cell m) (cells ns) post) (
    number_at-cells ns (pre ++ cell m) post i n e h at
      (omega (arith, a, length-append pre (cell m))))

pub bytes_at-joined :
    (xs : List Bytes) (pre post : Bytes) (o i s : ℕ) (x : Bytes)
    → get_elem? xs i ≡ some x
    → get_elem? (starts o xs) i ≡ some s
    → (at : ℕ) → at + o ≡ length pre + s
    → bytes_at (pre ++ (joined xs ++ post)) at (length x) ≡ ok x
bytes_at-joined [] pre post o i s x e f at a = absurd cc
bytes_at-joined (y ∷ xs) pre post o zero s x e f at a =
    let same : y ≡ x = some-injective _ _ e in
    let start : o ≡ s = some-injective _ _ f in
    let place : at ≡ length pre = omega (arith, a, start) in
    rw (same, place, append_assoc x (joined xs) post) (bytes_at-append pre x (joined xs ++ post))
bytes_at-joined (y ∷ xs) pre post o (suc i) s x e f at a = rw (shift pre y (joined xs) post) (
    bytes_at-joined xs (pre ++ y) post (o + length y) i s x e f at
      (omega (arith, a, length-append pre y)))
