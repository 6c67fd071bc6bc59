-- ===== src/Util/Search.antt =====
-- `find`, `rfind` and `substr` of `std::string`.
use ravl.Prelude.{
  ℕ, suc, ◌-◌, Bool, true, false, ◌&&◌, [], ◌∷◌, Option, none, some, Bytes, take, drop, leb, ◌==◌,
  if◌then◌else◌,
}
use ravl.Result.{Result, ok, undefined}

-- Whether the text starts with the pattern.
abbrev pub starts_with : Bytes → Bytes → Bool
starts_with text [] = true
starts_with [] (p ∷ ps) = false
starts_with (t ∷ ts) (p ∷ ps) = t == p && starts_with ts ps

abbrev pub later : Option ℕ → Option ℕ
later none = none
later (some i) = some (suc i)

-- `find` and `rfind` of `std::string`: the first and the last place, `none` for `npos`.
abbrev pub find_first : Bytes → Bytes → Option ℕ
find_first [] pattern = if starts_with [] pattern then some 0 else none
find_first (t ∷ ts) pattern =
    if starts_with (t ∷ ts) pattern then some 0 else later (find_first ts pattern)

abbrev pub find_last : Bytes → Bytes → Option ℕ
find_last [] pattern = if starts_with [] pattern then some 0 else none
find_last (t ∷ ts) pattern = elim (find_last ts pattern) [
  | some i ↦ some (suc i)
  | none ↦ if starts_with (t ∷ ts) pattern then some 0 else none
]

-- What stands between two places; a span that ends before it begins is undefined.
abbrev pub between : Bytes → ℕ → ℕ → Result Bytes
between text from to = if leb from to then ok (take (to - from) (drop from text)) else undefined
