-- ===== src/Util/Cursor/Reads.antt =====
-- What `get` and `get_n` return, on every input; `get` reads back what `put` wrote.
use mathlib.Core.List.{append_assoc}
use native.Mathlib.Nat.{
  mod-lt, div-add-mod, mul-add-mod_self_left, mod-eq_of_lt, le_trans, pow-le-pow_right,
}
use native.Mathlib.Numerals.{towards_suc}
use ravl.Prelude.{
  ℕ, zero, suc, ◌+◌, ◌*◌, ◌/◌, ◌%◌, ◌^◌, ◌≤◌, ◌<◌, ◌≡◌, refl, sym, ap, ◌∙◌, List, [], ◌∷◌, ◌++◌,
  Bytes, IsByte, All, length, arith, length-append,
}
use ravl.Result.{ok, err, runtime_error}
use ravl.Util.Cursor.{size_mod, at, get_loop, get, get_n_loop, get_n, put}

-- The number that a run of bytes stands for, most significant byte first, behind `r`.
abbrev pub big_endian : ℕ → Bytes → ℕ
big_endian r [] = r
big_endian r (b ∷ bs) = big_endian (r * 256 + b) bs

-- The bytes from `pos` on, taken apart.
module _ {ℓ} {A : Type ℓ} where
  pub at-append :
      (pre : List A) (x : A) (post : List A) → at (pre ++ (x ∷ post)) (length pre) ≡ ok x
  unfolding at
  at-append [] x post = refl
  at-append (p ∷ pre) x post = at-append pre x post

  snoc_shift : (pre : List A) (x : A) (xs : List A) → pre ++ (x ∷ xs) ≡ (pre ++ (x ∷ [])) ++ xs
  snoc_shift pre x xs = sym (append_assoc pre (x ∷ []) xs)

  length-snoc : (pre : List A) (x : A) → length (pre ++ (x ∷ [])) ≡ length pre + 1
  length-snoc pre x = length-append pre (x ∷ [])

pub get_n_loop-append :
    (mid pre post : Bytes) → get_n_loop (length mid) (pre ++ (mid ++ post)) (length pre) ≡ ok mid
unfolding get_n_loop
get_n_loop-append [] pre post = refl
get_n_loop-append (b ∷ mid) pre post = rw (at-append pre b (mid ++ post)) (
    rw (snoc_shift pre b (mid ++ post))
      (rw (← length-snoc pre b) (rw (get_n_loop-append mid (pre ++ (b ∷ [])) post) refl)))

-- A power of 256 as the shift count writes it.
pub pow_bytes : (j : ℕ) → 2 ^ (8 * suc j) ≡ 256 * 2 ^ (8 * j)
pow_bytes j = rw eight (simp towards_suc (omega arith))
  where
    eight : 8 * suc j ≡ 8 * j + 8
    eight = omega arith

-- The cast to the result type drops nothing: before the round `r` has only the bytes read so far.
get_loop-append :
    (w j : ℕ) (mid pre post : Bytes) (r : ℕ)
    → j + length mid ≡ w
    → r < 2 ^ (8 * j)
    → All IsByte mid
    → get_loop w (length mid) (pre ++ (mid ++ post)) (length pre) r ≡ ok (big_endian r mid)
unfolding get_loop
get_loop-append w j [] pre post r hw hr hb = refl
get_loop-append w j (b ∷ mid) pre post r hw hr hb = rw (at-append pre b (mid ++ post)) (
    rw keeps (
      rw (snoc_shift pre b (mid ++ post)) (
        rw (← length-snoc pre b) (
          get_loop-append w (suc j) mid (pre ++ (b ∷ [])) post (r * 256 + b) (omega arith)
            (omega (arith, pow_bytes j, hb.0)) hb.1))))
  where
    keeps : r * 2 ^ 8 % 2 ^ (8 * w) ≡ r * 256
    keeps = mod-eq_of_lt (le_trans fits (pow-le-pow_right {n = 2} (omega arith) (omega arith)))
      where
        fits : r * 256 < 2 ^ (8 * suc j)
        fits = omega (arith, pow_bytes j)

module _ (mid pre post : Bytes) (short : length (pre ++ (mid ++ post)) < 2 ^ 63) where
  within : length pre + length mid ≤ length (pre ++ (mid ++ post))
  within = omega (arith, length-append pre (mid ++ post), length-append mid post)

  -- `get` returns the bytes at the position as a number, and moves behind them.
  pub get-append :
      All IsByte mid
      → get (length mid) (pre ++ (mid ++ post)) (length pre)
        ≡ ok (big_endian 0 mid, length pre + length mid)
  unfolding get
  get-append bytes = ground (
    arith,
    within,
    get_loop-append (length mid) 0 mid pre post 0 (omega arith) (omega arith) bytes,
  )

  -- `get_n` returns a copy of the bytes at the position, and moves behind them.
  pub get_n-append :
      get_n (pre ++ (mid ++ post)) (length mid) (length pre) ≡ ok (mid, length pre + length mid)
  unfolding get_n
  get_n-append = ground (arith, within, get_n_loop-append mid pre post)

pub length-put : (k t : ℕ) → length (put k t) ≡ k
unfolding put
length-put zero t = refl
length-put (suc k) t = ap suc (length-put k t)

pub put-IsByte : (k t : ℕ) → All IsByte (put k t)
unfolding put
put-IsByte zero t = tt
put-IsByte (suc k) t = (omega arith, put-IsByte k t)

-- The low byte of the quotient, put back above the remainder.
mod_split : (p t : ℕ) → 0 < p → t % (256 * p) ≡ t / p % 256 * p + t % p
mod_split p t h =
    ap (λ (n : ℕ). n % (256 * p)) whole
    ∙ mul-add-mod_self_left (256 * p) (t / p / 256) (t / p % 256 * p + t % p)
    ∙ mod-eq_of_lt fits
  where
    whole : t ≡ 256 * p * (t / p / 256) + (t / p % 256 * p + t % p)
    whole = omega (arith, div-add-mod t p, ap (λ (n : ℕ). p * n) (div-add-mod (t / p) 256))

    fits : t / p % 256 * p + t % p < 256 * p
    fits = grind (arith, mod-lt)

pub big_endian-put : (k r t : ℕ) → big_endian r (put k t) ≡ r * 2 ^ (8 * k) + t % 2 ^ (8 * k)
unfolding put
big_endian-put zero r t = omega arith
big_endian-put (suc k) r t = rw (big_endian-put k (r * 256 + t / 2 ^ (8 * k) % 256) t) (
    rw (pow_bytes k) (
      rw
        (mod_split (2 ^ (8 * k)) t
          (pow-le-pow_right {n = 2} (omega arith) {i = 0} {j = 8 * k} (omega arith)))
        (omega arith)))

-- `get` reads back what `put` pushed, cut to the width of the type, wherever it stands.
pub get-put :
    (w t : ℕ) (pre post : Bytes)
    → length (pre ++ (put w t ++ post)) < 2 ^ 63
    → get w (pre ++ (put w t ++ post)) (length pre) ≡ ok (t % 2 ^ (8 * w), length pre + w)
get-put w t pre post short = ground (
  arith,
  length-put w t,
  big_endian-put w 0 t,
  get-append (put w t) pre post short (put-IsByte w t),
)

-- Too few bytes for the type: an exception, whatever they are.
pub get_short :
    (w : ℕ) (bytes : Bytes) (pos : ℕ)
    → pos + w < size_mod
    → length bytes < pos + w
    → get w bytes pos ≡ err (runtime_error "not enough data")
unfolding get
get_short w bytes pos room h = ground arith

pub get_n_short :
    (bytes : Bytes) (n pos : ℕ)
    → pos + n < size_mod
    → length bytes < pos + n
    → get_n bytes n pos ≡ err (runtime_error "not enough data")
unfolding get_n
get_n_short bytes n pos room h = ground arith
