-- ===== src/Sgx/Layout/Parts.antt =====
-- Reads from bytes whose parts are known.
use ravl.Prelude.{
  ℕ, zero, suc, ◌+◌, ◌≤◌, ◌<◌, ◌^◌, ◌≡◌, refl, false, sym, ap, ◌∙◌, List, [], ◌∷◌, ◌++◌, Bytes,
  length, arith, length-append, take, drop, drop-length, take-length, length-take,
}
use ravl.Result.{ok}
use ravl.Sgx.Consume.{is_empty}
use ravl.Sgx.Layout.{bytes_at, number_at, little_endian, cell}

pub little_endian-cell : (n : ℕ) → n < 2 ^ 32 → little_endian (cell n) ≡ n
little_endian-cell n h = omega (arith, h)

pub bytes_at-append :
    (pre mid post : Bytes) → bytes_at (pre ++ (mid ++ post)) (length pre) (length mid) ≡ ok mid
unfolding bytes_at
bytes_at-append pre mid post = ground (
  arith,
  length-append pre (mid ++ post),
  length-append mid post,
  drop-length pre (mid ++ post),
  take-length mid post,
)

pub number_at-cell :
    (pre post : Bytes) (n : ℕ)
    → n < 2 ^ 32
    → number_at (pre ++ (cell n ++ post)) (length pre) 4 ≡ ok n
unfolding number_at
number_at-cell pre post n h =
    ground (arith, bytes_at-append pre (cell n) post, little_endian-cell n h)

-- Bytes that stand between others.
module _ (bytes pre mid post : Bytes) (e : bytes ≡ pre ++ (mid ++ post)) (at size : ℕ) where
  pub bytes_between : at ≡ length pre → size ≡ length mid → bytes_at bytes at size ≡ ok mid
  bytes_between h k = rw (e, h, k) (bytes_at-append pre mid post)

  pub number_between :
      at ≡ length pre → size ≡ length mid → number_at bytes at size ≡ ok (little_endian mid)
  unfolding number_at
  number_between h k = rw (bytes_between h k) refl

take-take : {A : Type 0} (n k : ℕ) (xs : List A) → n ≤ k → take n (take k xs) ≡ take n xs
take-take zero k xs h = refl
take-take (suc n) zero xs h = absurd (omega (arith, h))
take-take (suc n) (suc k) [] h = refl
take-take (suc n) (suc k) (x ∷ xs) h = ap (λ l. x ∷ l) (take-take n k xs (omega (arith, h)))

take-drop-take :
    {A : Type 0} (n o k : ℕ) (xs : List A)
    → o + n ≤ k
    → take n (drop o (take k xs)) ≡ take n (drop o xs)
take-drop-take n zero k xs h = take-take n k xs (omega (arith, h))
take-drop-take n (suc o) zero xs h = absurd (omega (arith, h))
take-drop-take n (suc o) (suc k) [] h = refl
take-drop-take n (suc o) (suc k) (x ∷ xs) h = take-drop-take n o k xs (omega (arith, h))

-- A number before the cut is still there.
pub number_at-take :
    (xs : Bytes) (k o size : ℕ)
    → k ≤ length xs
    → o + size ≤ k
    → number_at (take k xs) o size ≡ number_at xs o size
unfolding number_at bytes_at
number_at-take xs k o size h low = ground (arith, take-drop-take size o k xs low, length-take k xs)

pub number_at-append :
    (xs ys : Bytes) (o size : ℕ)
    → o + size ≤ length xs
    → number_at (xs ++ ys) o size ≡ number_at xs o size
number_at-append xs ys o size h =
    sym (number_at-take (xs ++ ys) (length xs) o size (omega (arith, length-append xs ys)) h)
    ∙ ap (λ b. number_at b o size) (take-length xs ys)

pub is_empty-false : (bytes : Bytes) → 0 < length bytes → is_empty bytes ≡ false
is_empty-false [] h = absurd (omega (arith, h))
is_empty-false (b ∷ bs) h = refl
