-- ===== src/Sgx/Compress/Overwrite.antt =====
-- Writes and cuts on bytes whose parts are known.
use ravl.Prelude.{
  ℕ, zero, suc, ◌+◌, ◌≡◌, refl, ap, [], ◌∷◌, ◌++◌, Bytes, length, arith, length-append, take, drop,
  take-length, drop-length,
}
use ravl.Result.{ok}
use ravl.Sgx.Compress.{overwrite, resize}

pub take-append :
    (pre xs : Bytes) (m j : ℕ) → m ≡ length pre + j → take m (pre ++ xs) ≡ pre ++ take j xs
take-append [] xs m j h = let e : m ≡ j = omega (arith, h) in rw e refl
take-append (x ∷ pre) xs zero j h = absurd (omega (arith, h))
take-append (x ∷ pre) xs (suc m) j h = ap (λ l. x ∷ l) (take-append pre xs m j (omega (arith, h)))

drop-append : (pre xs : Bytes) (m j : ℕ) → m ≡ length pre + j → drop m (pre ++ xs) ≡ drop j xs
drop-append [] xs m j h = let e : m ≡ j = omega (arith, h) in rw e refl
drop-append (x ∷ pre) xs zero j h = absurd (omega (arith, h))
drop-append (x ∷ pre) xs (suc m) j h = drop-append pre xs m j (omega (arith, h))

pub overwrite-append :
    (b pre old post new : Bytes) (at : ℕ)
    → b ≡ pre ++ (old ++ post)
    → at ≡ length pre
    → length new ≡ length old
    → overwrite b at new ≡ ok (pre ++ (new ++ post))
unfolding overwrite
overwrite-append b pre old post new at e h same = rw e (
    ground (
      arith,
      h,
      same,
      length-append pre (old ++ post),
      length-append old post,
      take-length pre (old ++ post),
      drop-append pre (old ++ post) (length pre + length old) (length old) refl,
      drop-length old post,
    ))

pub resize-append :
    (b xs post : Bytes) (n : ℕ) → b ≡ xs ++ post → n ≡ length xs → resize b n ≡ ok xs
unfolding resize
resize-append b xs post n e h = rw e (ground (arith, h, length-append xs post, take-length xs post))
