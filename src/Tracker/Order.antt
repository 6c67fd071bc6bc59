-- ===== src/Tracker/Order.antt =====
-- The order of the states of a request, and what a finished request has behind it.
use ravl.Prelude.{ℕ, ◌≤◌, ◌≡◌, refl, Option, none, some, arith}
use ravl.Result.{Result, ok, err, undefined}
use ravl.Http.Message.{HttpRequests, HttpResponses}
use ravl.Tracker.State.{
  RequestState, submitted, waiting_for_endorsements, have_endorsements, finished, error,
  Attestation, Submission, refused, answered, pending, Client, Callback, Request,
}
use ravl.Tracker.Outcome.{
  kept, settle, accept, outcome, outcome_in, notified, notify, judge, settle_with, with_set,
  sent_with, fetched_with, prepared_with, accept_with,
}

-- Both final states have the same rank.
abbrev pub rank : RequestState → ℕ
rank submitted = 0
rank waiting_for_endorsements = 1
rank have_endorsements = 2
rank finished = 3
rank error = 3

rank_le : (s : RequestState) → rank s ≤ 3
rank_le submitted = omega arith
rank_le waiting_for_endorsements = omega arith
rank_le have_endorsements = omega arith
rank_le finished = omega arith
rank_le error = omega arith

module _ {C : Type 0} where
  -- The claims of `r` are what its attestation's `verify` returned on some responses.
  abbrev pub HasVerified : Request C → Type 0
  HasVerified r =
      (att : Attestation C) × (rs : HttpResponses) × (r.attestation ≡ some att)
      × (att.verify r.options (some rs) ≡ ok r.claims)

  abbrev pub IsJudged : Request C → Type 0
  IsJudged r = r.state ≡ finished → HasVerified r

  -- A step from `r` to `r'`: the state does not go back, a request that becomes finished has verified
  -- claims, and the job stays the same.
  pub record Follows (r r' : Request C) : Type 0 where
    pub forward : rank r.state ≤ rank r'.state
    pub verified : IsJudged r → IsJudged r'
    pub same_options : r'.options ≡ r.options
    pub same_attestation : r'.attestation ≡ r.attestation

  abbrev pub Whenever : (Request C → Type 0) → Option (Request C) → Type 0
  Whenever P none = Unit {0}
  Whenever P (some r) = P r

  -- The job of `r`, under any state, claims and request set.
  module _ (r : Request C) where
    Follows-fail :
        (s : RequestState) (c : Option C) → Follows r (record r { state = error; claims = c })
    Follows-fail s c = record {
      forward = rank_le r.state;
      verified = λ j e. cc;
      same_options = refl;
      same_attestation = refl;
    }

    module _ (s : RequestState) (id : ℕ) where
      abbrev base : Request C
      base = record r { state = s }

      Follows-notify :
          (att : Attestation C) (rs : HttpResponses) (c : Option C)
          → r.attestation ≡ some att
          → att.verify r.options (some rs) ≡ ok c
          → (o : Option Callback)
          → Whenever (Follows r) (notify id (record base { claims = c; state = finished }) o)
      Follows-notify att rs c ha hv none = record {
        forward = rank_le r.state;
        verified = λ j e. (att, rs, ha, hv);
        same_options = refl;
        same_attestation = refl;
      }
      Follows-notify att rs c ha hv (some callback) = go (callback id)
        where
          go :
              (k : Result (Unit {0}))
              → Whenever (Follows r) (notified (record base { claims = c; state = finished }) k)
          go (ok _) = record {
            forward = rank_le r.state;
            verified = λ j e. (att, rs, ha, hv);
            same_options = refl;
            same_attestation = refl;
          }
          go (err e) = Follows-fail s c
          go undefined = tt

      Follows-settle : (o : Option HttpResponses) → Whenever (Follows r) (settle id base o)
      unfolding settle
      Follows-settle o = go r.attestation refl
        where
          judged :
              (att : Attestation C) (v : Result (Option C))
              → r.attestation ≡ some att
              → att.verify r.options (some (kept o)) ≡ v
              → Whenever (Follows r) (judge id base v)
          judged att (ok c) ha hv = Follows-notify att (kept o) c ha hv r.callback
          judged att (err e) ha hv = Follows-fail s r.claims
          judged att undefined ha hv = tt

          go :
              (a : Option (Attestation C))
              → r.attestation ≡ a
              → Whenever (Follows r) (settle_with id base (kept o) a)
          go none ha = Follows-fail s r.claims
          go (some att) ha = judged att _ ha refl

    module _ (id : ℕ) (fresh : r.state ≡ submitted) where
      Follows-with_set :
          (set_id : ℕ) (o : Option (Request C))
          → Whenever (Follows r) o
          → Whenever (Follows r) (with_set set_id o)
      Follows-with_set set_id none h = tt
      Follows-with_set set_id (some r') h = record {
        forward = h.forward;
        verified = h.verified;
        same_options = h.same_options;
        same_attestation = h.same_attestation;
      }

      Follows-sent :
          (o : Option HttpResponses) (s : Submission) → Whenever (Follows r) (sent_with id r o s)
      Follows-sent o (refused e) = Follows-fail submitted r.claims
      Follows-sent o (pending set_id) = record {
        forward = rw fresh (omega arith);
        verified = λ j e. cc;
        same_options = refl;
        same_attestation = refl;
      }
      Follows-sent none (answered set_id rs) =
          Follows-with_set set_id _ (Follows-settle have_endorsements id (some rs))
      Follows-sent (some old) (answered set_id rs) = Follows-fail submitted r.claims

      Follows-accept : (o : Option HttpResponses) → Whenever (Follows r) (accept id r o)
      unfolding accept
      Follows-accept o = go r.attestation
        where
          fetched :
              (rqs : HttpRequests) (c : Option Client)
              → Whenever (Follows r) (fetched_with id r o rqs c)
          fetched rqs none = tt
          fetched rqs (some client) = Follows-sent o (client rqs)

          prepared :
              (p : Result (Option HttpRequests)) → Whenever (Follows r) (prepared_with id r o p)
          prepared (ok none) = Follows-settle have_endorsements id o
          prepared (ok (some rqs)) = fetched rqs r.http_client
          prepared (err e) = Follows-fail submitted r.claims
          prepared undefined = tt

          go : (a : Option (Attestation C)) → Whenever (Follows r) (accept_with id r o a)
          go none = Follows-fail submitted r.claims
          go (some att) = prepared (att.prepare_endorsements r.options)

    Follows-outcome :
        (id : ℕ) (o : Option HttpResponses) (s : RequestState)
        → r.state ≡ s
        → Whenever (Follows r) (outcome_in s id r o)
    Follows-outcome id o submitted hs = Follows-accept id hs o
    Follows-outcome id o waiting_for_endorsements hs = record {
      forward = rw hs (omega arith);
      verified = λ j e. cc;
      same_options = refl;
      same_attestation = refl;
    }
    Follows-outcome id o have_endorsements hs = Follows-settle r.state id o
    Follows-outcome id o finished hs = record {
      forward = omega arith;
      verified = λ j. j;
      same_options = refl;
      same_attestation = refl;
    }
    Follows-outcome id o error hs = Follows-fail error r.claims

  -- Whatever the objects do that it calls, `outcome` moves the state of a request forward only, makes
  -- it finished only with claims that its own attestation's `verify` has returned for its options,
  -- and keeps both.
  pub outcome-Follows :
      (id : ℕ) (r : Request C) (o : Option HttpResponses) (r' : Request C)
      → outcome id r o ≡ some r'
      → Follows r r'
  unfolding outcome
  outcome-Follows id r o r' e = rw e at (Follows-outcome r id o r.state refl)
