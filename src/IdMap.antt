-- ===== src/IdMap.antt =====
-- `std::map` and `std::unordered_map` with identifiers for keys, as association lists that hold a
-- key at most once. The program never iterates over one.
use ravl.Prelude.{ℕ, suc, ◌≡◌, List, [], ◌∷◌, Option, none, some, arith, ◌==◌, if◌then◌else◌}

abbrev pub IdMap {ℓ} : Type ℓ → Type ℓ
IdMap V = List (ℕ × V)

module _ {ℓ} {V : Type ℓ} where
  -- m.find(k)
  unfoldable pub find : IdMap V → ℕ → Option V
  find [] k = none
  find ((j, v) ∷ m) k = if j == k then some v else find m k

  -- m.size()
  unfoldable pub size : IdMap V → ℕ
  size [] = 0
  size (e ∷ m) = suc (size m)

  -- m.erase(k)
  unfoldable pub erase : IdMap V → ℕ → IdMap V
  erase [] k = []
  erase ((j, v) ∷ m) k = let rest = erase m k in if j == k then rest else (j, v) ∷ rest

  -- `m[k] = v`: an entry that is there is replaced where it stands.
  unfoldable pub assign : IdMap V → ℕ → V → IdMap V
  assign [] k v = (k, v) ∷ []
  assign ((j, w) ∷ m) k v = if j == k then (k, v) ∷ m else (j, w) ∷ assign m k v

  abbrev emplaced : Option V → IdMap V → ℕ → V → IdMap V
  emplaced none m k v = (k, v) ∷ m
  emplaced (some w) m k v = m

  -- `m.emplace(k, v)`: an entry that is there stays. The test of its flag is `find m k` before it.
  unfoldable pub emplace : IdMap V → ℕ → V → IdMap V
  emplace m k v = emplaced (find m k) m k v

  pub find-erase :
      (m : IdMap V) (k j : ℕ) → find (erase m k) j ≡ (if k == j then none else find m j)
  unfolding find erase
  find-erase [] k j = ground arith
  find-erase ((i, v) ∷ m) k j = ground (arith, find-erase m k j)

  pub find-assign :
      (m : IdMap V) (k : ℕ) (v : V) (j : ℕ)
      → find (assign m k v) j ≡ (if k == j then some v else find m j)
  unfolding find assign
  find-assign [] k v j = ground arith
  find-assign ((i, w) ∷ m) k v j = ground (arith, find-assign m k v j)

  pub find-emplace :
      (m : IdMap V) (k : ℕ) (v : V)
      → find m k ≡ none
      → (j : ℕ) → find (emplace m k v) j ≡ (if k == j then some v else find m j)
  unfolding emplace find
  find-emplace m k v h j = rw h

  pub emplace_old : (m : IdMap V) (k : ℕ) (v w : V) → find m k ≡ some w → emplace m k v ≡ m
  unfolding emplace
  emplace_old m k v w h = rw h

  pub find-assign_self : (m : IdMap V) (k : ℕ) (v : V) → find (assign m k v) k ≡ some v
  find-assign_self m k v = ground (arith, find-assign m k v k)

  pub assign-assign : (m : IdMap V) (k : ℕ) (v w : V) → assign (assign m k v) k w ≡ assign m k w
  unfolding assign
  assign-assign [] k v w = ground arith
  assign-assign ((i, u) ∷ m) k v w = ground (arith, assign-assign m k v w)

pub ruleset map_laws = (find-erase, find-assign)
