-- ===== src/Http/Async/Pairs.antt =====
-- Responses that belong to requests, under each change of the two maps.
use ravl.Prelude.{
  ℕ, ◌≡◌, ◌≢◌, sym, ap, ◌∙◌, ◌⊎◌, inl, inr, false, [], none, some, length, arith, ◌==◌,
}
use mathlib.Core.Option.{some-injective}
use native.Mathlib.Decide.{ℕ_discrete}
use ravl.IdMap.{IdMap, find, erase, assign, emplace, find-erase, find-assign, find-emplace}
use ravl.Http.Message.{HttpResponses}
use ravl.Http.Async.{TrackedRequests}

-- The set of requests that a set of responses belongs to.
pub record Owner (requests : IdMap TrackedRequests) (id n : ℕ) : Type 0 where
  pub owner : TrackedRequests
  pub found : find requests id ≡ some owner
  pub same_size : n ≡ length owner.requests

-- Every set of responses belongs to a set of requests, and has as many elements.
abbrev pub Pairs : IdMap TrackedRequests → IdMap HttpResponses → Type 0
Pairs requests responses =
    (id : ℕ) (rs : HttpResponses) → find responses id ≡ some rs → Owner requests id (length rs)

module _ {ℓ} {V : Type ℓ} where
  assign_found :
      (m : IdMap V) (id : ℕ) (v : V) (j : ℕ) (w : V)
      → find (assign m id v) j ≡ some w
      → ((id ≡ j) × (v ≡ w)) ⊎ (find m j ≡ some w)
  assign_found m id v j w e = ground (arith, find-assign m id v j)

  emplace_found :
      (m : IdMap V) (id : ℕ) (v : V) (j : ℕ) (w : V)
      → find m id ≡ none
      → find (emplace m id v) j ≡ some w
      → ((id ≡ j) × (v ≡ w)) ⊎ (find m j ≡ some w)
  emplace_found m id v j w h e = ground (arith, find-emplace m id v h j)

  erase_found :
      (m : IdMap V) (id j : ℕ) (w : V)
      → find (erase m id) j ≡ some w
      → (find m j ≡ some w) × (id ≢ j)
  erase_found m id j w e = ground (arith, find-erase m id j)

-- Responses that are replaced by as many.
pub assign-Pairs :
    (requests : IdMap TrackedRequests) (responses : IdMap HttpResponses) (id : ℕ)
    (rs : HttpResponses)
    → Pairs requests responses
    → Owner requests id (length rs)
    → Pairs requests (assign responses id rs)
assign-Pairs requests responses id rs p own j rs' e = elim (assign_found responses id rs j rs' e) [
  | inl (same, v) ↦ rw (same, v) at own
  | inr old ↦ p j rs' old
]

-- A new set of requests, with responses or still without.
pub emplace-Pairs :
    (requests : IdMap TrackedRequests) (responses : IdMap HttpResponses) (id : ℕ)
    (t : TrackedRequests)
    → Pairs requests responses
    → find requests id ≡ none
    → Pairs (emplace requests id t) responses
emplace-Pairs requests responses id t p new j rs e =
    let own = p j rs e in
    record {
      owner = own.owner;
      found = ground (arith, find-emplace requests id t new j, own.found);
      same_size = own.same_size;
    }

pub emplace_responses-Pairs :
    (requests : IdMap TrackedRequests) (responses : IdMap HttpResponses) (id : ℕ)
    (rs : HttpResponses)
    → Pairs requests responses
    → find responses id ≡ none
    → Owner requests id (length rs)
    → Pairs requests (emplace responses id rs)
emplace_responses-Pairs requests responses id rs p new own j rs' e =
    elim (emplace_found responses id rs j rs' new e) [
      | inl (same, v) ↦ rw (same, v) at own
      | inr old ↦ p j rs' old
    ]

pub replace-Pairs :
    (requests : IdMap TrackedRequests) (responses : IdMap HttpResponses) (id : ℕ)
    (s t : TrackedRequests)
    → Pairs requests responses
    → find requests id ≡ some s
    → s.requests ≡ t.requests
    → Pairs (assign requests id t) responses
replace-Pairs requests responses id s t p here same j rs e = elim (ℕ_discrete id j) [
  | yes there ↦ record {
    owner = t;
    found = ground (arith, find-assign requests id t j, there);
    same_size =
        own.same_size
        ∙ ap (λ (u : TrackedRequests). length u.requests)
            (some-injective _ _ (sym own.found ∙ sym (ap (λ k. find requests k) there) ∙ here))
        ∙ ap length same;
  }
  | no other ↦ record {
    owner = own.owner;
    found = ground (arith, find-assign requests id t j, own.found, other);
    same_size = own.same_size;
  }
]
  where
    own : Owner requests j (length rs)
    own = p j rs e

pub delivered-Pairs :
    (requests : IdMap TrackedRequests) (responses : IdMap HttpResponses) (id : ℕ)
    → Pairs requests responses
    → Pairs (erase requests id) (erase (assign responses id []) id)
delivered-Pairs requests responses id p j rs e =
    let (kept, other) = erase_found (assign responses id []) id j rs e in
    elim (assign_found responses id [] j rs kept) [
      | inl (same, _) ↦ absurd (other same)
      | inr old ↦
          let own = p j rs old in
          record {
            owner = own.owner;
            found = ground (arith, find-erase requests id j, own.found, other);
            same_size = own.same_size;
          }
    ]

pub erase-Pairs :
    (requests : IdMap TrackedRequests) (responses : IdMap HttpResponses) (id : ℕ)
    → Pairs requests responses
    → Pairs (erase requests id) (erase responses id)
erase-Pairs requests responses id p j rs e =
    let (old, other) = erase_found responses id j rs e in
    let own = p j rs old in
    record {
      owner = own.owner;
      found = ground (arith, find-erase requests id j, own.found, other);
      same_size = own.same_size;
    }

pub other_size :
    {requests : IdMap TrackedRequests} {id n : ℕ} (t : TrackedRequests)
    → Owner requests id n
    → find requests id ≡ some t
    → (n == length t.requests) ≡ false
    → ⊥
other_size t own here other =
    let same : own.owner ≡ t = some-injective _ _ (sym own.found ∙ here) in
    ground (arith, own.same_size ∙ ap (λ (u : TrackedRequests). length u.requests) same, other)

pub none_found : (id : ℕ) (rs : HttpResponses) → find {V = HttpResponses} [] id ≡ some rs → ⊥
unfolding find
none_found id rs found = cc
