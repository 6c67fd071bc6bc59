-- ===== src/Util/Cursor.antt =====
-- `get`, `get_n` and `put` of include/ravl/util.h: big-endian numbers at a moving position.
pub mod Reads
use ravl.Prelude.{
  ℕ, zero, suc, ◌+◌, ◌-◌, ◌*◌, ◌/◌, ◌%◌, ◌^◌, Bool, List, [], ◌∷◌, ◌++◌, Option, none, some, Bytes,
  ltb, length, get_elem?, if◌then◌else◌,
}
use ravl.Result.{Result, ok, err, throw_if, out_of_range, length_error, ◌>>=◌, ◌>>◌}

-- `size_t` and `uint64_t`
abbrev pub size_mod : ℕ
size_mod = 2 ^ 64

-- `data.at(i)`
unfoldable pub at {ℓ} : {A : Type ℓ} → List A → ℕ → Result A
at xs i = elim (get_elem? xs i) [ none ↦ err out_of_range | some x ↦ ok x ]

-- The loop of `get<T>` with `k` of the `w` rounds left. The shift clears the low byte, so `|` with
-- a byte is addition.
unfoldable pub get_loop : ℕ → ℕ → Bytes → ℕ → ℕ → Result ℕ
unfolding at
get_loop w zero bytes pos r = ok r
get_loop w (suc k) bytes pos r = do
  b ← at bytes pos
  get_loop w k bytes (pos + 1) (r * 2 ^ 8 % 2 ^ (8 * w) + b)

-- `get<T>(data, pos)` for a type of `w` bytes: the value and the new position.
unfoldable pub get : ℕ → Bytes → ℕ → Result (ℕ × ℕ)
unfolding get_loop
get w bytes pos = do
  throw_if (ltb (length bytes) ((pos + w) % size_mod)) "not enough data"
  r ← get_loop w w bytes pos 0
  ok (r, (pos + w) % size_mod)

-- The loop of `get_n` with `k` rounds left.
unfoldable pub get_n_loop : ℕ → Bytes → ℕ → Result Bytes
unfolding at
get_n_loop zero bytes pos = ok []
get_n_loop (suc k) bytes pos = do b ← at bytes pos; r ← get_n_loop k bytes (pos + 1); ok (b ∷ r)

-- The largest `std::vector<uint8_t>`; the constructor of a larger one throws.
abbrev pub max_size : ℕ
max_size = 2 ^ 63 - 1

-- The result's length is checked where `r(n, 0)` is constructed, before the loop.
unfoldable pub get_n : Bytes → ℕ → ℕ → Result (Bytes × ℕ)
unfolding get_n_loop
get_n bytes n pos = do
  throw_if (ltb (length bytes) ((pos + n) % size_mod)) "not enough data"
  r ← (if ltb max_size n then err length_error else get_n_loop n bytes pos)
  ok (r, (pos + n) % size_mod)

-- `put(t, data)`: the bytes that are pushed back, with `k` of the rounds left.
unfoldable pub put : ℕ → ℕ → Bytes
put zero t = []
put (suc k) t = (t / 2 ^ (8 * k) % 2 ^ 8) ∷ put k t
