-- ===== src/Tracker/Completes.antt =====
-- Requests that are handed to a client which does not leave them pending, such as the synchronous
-- one: `submit` takes them to a final state.
use mathlib.Core.Path.{subst}
use mathlib.Core.Option.{some-injective}
use ravl.Prelude.{
  ℕ, ◌+◌, ◌%◌, ◌^◌, ◌⊎◌, inl, inr, ◌≡◌, refl, sym, Bool, true, false, ◌||◌, Option, none, some,
  arith,
}
use ravl.Result.{Result, ok, err, undefined}
use ravl.Exec.{continue, pure}
use ravl.IdMap.{find, emplace, find-emplace, find-assign_self}
use ravl.Options.{Options}
use ravl.Http.Message.{HttpRequests, HttpResponses}
use ravl.Tracker.State.{
  RequestState, have_endorsements, finished, Attestation, Submission, refused, answered, pending,
  Client, Callback, Request, Tracker,
}
use ravl.Tracker.Advance.{advance}
use ravl.Tracker.Api.{is_finished, is_error, new_request, enter, submit, state, completed}
use ravl.Tracker.Outcome.{
  kept, settle, accept, outcome, notified, notify, judge, settle_with, with_set, sent_with,
  fetched_with, prepared_with, accept_with,
}
use ravl.Tracker.Order.{Whenever}
use ravl.Tracker.Runs.{Runs}
use ravl.Tracker.Refines.{advance-outcome}

abbrev pub is_pending : Submission → Bool
is_pending (pending set_id) = true
is_pending (refused e) = false
is_pending (answered set_id rs) = false

abbrev pub NeverPending : Client → Type 0
NeverPending client = (rqs : HttpRequests) → is_pending (client rqs) ≡ false

module _ {C : Type 0} where
  abbrev pub IsFinal : Request C → Type 0
  IsFinal r = (is_finished r.state || is_error r.state) ≡ true

  notified-IsFinal :
      (r : Request C) (x : Result (Unit {0})) → IsFinal r → Whenever IsFinal (notified r x)
  notified-IsFinal r (ok _) h = h
  notified-IsFinal r (err e) h = refl
  notified-IsFinal r undefined h = tt

  notify-IsFinal :
      (id : ℕ) (r : Request C) (c : Option Callback) → IsFinal r → Whenever IsFinal (notify id r c)
  notify-IsFinal id r none h = h
  notify-IsFinal id r (some callback) h = notified-IsFinal r (callback id) h

  judge-IsFinal : (id : ℕ) (r : Request C) (x : Result (Option C)) → Whenever IsFinal (judge id r x)
  judge-IsFinal id r (ok c) =
      notify-IsFinal id (record r { claims = c; state = finished }) r.callback refl
  judge-IsFinal id r (err e) = refl
  judge-IsFinal id r undefined = tt

  settle_with-IsFinal :
      (id : ℕ) (r : Request C) (rs : HttpResponses) (a : Option (Attestation C))
      → Whenever IsFinal (settle_with id r rs a)
  settle_with-IsFinal id r rs none = refl
  settle_with-IsFinal id r rs (some att) = judge-IsFinal id r (att.verify r.options (some rs))

  with_set-IsFinal :
      (set_id : ℕ) (o : Option (Request C))
      → Whenever IsFinal o
      → Whenever IsFinal (with_set set_id o)
  with_set-IsFinal set_id none h = tt
  with_set-IsFinal set_id (some r) h = h

  sent_with-IsFinal :
      (id : ℕ) (r : Request C) (o : Option HttpResponses) (s : Submission)
      → is_pending s ≡ false
      → Whenever IsFinal (sent_with id r o s)
  unfolding settle
  sent_with-IsFinal id r o (refused e) h = refl
  sent_with-IsFinal id r o (pending set_id) h = absurd cc
  sent_with-IsFinal id r none (answered set_id rs) h =
      with_set-IsFinal set_id _
        (settle_with-IsFinal id (record r { state = have_endorsements }) rs r.attestation)
  sent_with-IsFinal id r (some old) (answered set_id rs) h = refl

  fetched_with-IsFinal :
      (id : ℕ) (r : Request C) (o : Option HttpResponses) (rqs : HttpRequests) (c : Option Client)
      (client : Client)
      → c ≡ some client
      → NeverPending client
      → Whenever IsFinal (fetched_with id r o rqs c)
  fetched_with-IsFinal id r o rqs none client h never = absurd cc
  fetched_with-IsFinal id r o rqs (some k) client h never =
      let same : k ≡ client = some-injective k client h in
      sent_with-IsFinal id r o (k rqs) (subst NeverPending (sym same) never rqs)

  accept_with-IsFinal :
      (id : ℕ) (r : Request C) (o : Option HttpResponses) (a : Option (Attestation C))
      (client : Client)
      → r.http_client ≡ some client
      → NeverPending client
      → Whenever IsFinal (accept_with id r o a)
  unfolding settle
  accept_with-IsFinal id r o none client h never = refl
  accept_with-IsFinal id r o (some att) client h never = go (att.prepare_endorsements r.options)
    where
      go : (x : Result (Option HttpRequests)) → Whenever IsFinal (prepared_with id r o x)
      go (ok none) =
          settle_with-IsFinal id (record r { state = have_endorsements }) (kept o) r.attestation
      go (ok (some rqs)) = fetched_with-IsFinal id r o rqs r.http_client client h never
      go (err e) = refl
      go undefined = tt

  -- `submit` from the call of `advance` on.
  finish :
      (id : ℕ) (t : Tracker C) (o : Option (Request C)) (run : Result RequestState × Tracker C)
      → Runs id t o run
      → Whenever IsFinal o
      → (((continue run.0 (λ s. pure id) run.1).0 ≡ undefined) × (o ≡ none))
        ⊎ (((continue run.0 (λ s. pure id) run.1).0 ≡ ok id)
            × (completed (continue run.0 (λ s. pure id) run.1).1 id ≡ true))
  unfolding completed state
  finish id t none run runs final = inl (ground (arith, runs.result), refl)
  finish id t (some r) run runs final = inr (
    ground (arith, runs.result),
    ground (arith, runs.result, runs.requests r refl, find-assign_self t.requests id r, final),
  )

  -- On an unused identifier, a request that is submitted with a client which leaves none pending:
  -- `submit` returns that identifier, and the request is completed, unless the outcome of the new
  -- request is undefined, and then so is `submit`.
  pub submit_completes :
      (options : Options) (att : Option (Attestation C)) (client : Client)
      (callback : Option Callback) (t : Tracker C)
      → find t.requests t.next_request_id ≡ none
      → NeverPending client
      → (((submit options att (some client) callback t).0 ≡ undefined)
          × (outcome t.next_request_id
                (new_request options att (some client) callback)
                (find t.http_responses t.next_request_id)
              ≡ none))
        ⊎ (((submit options att (some client) callback t).0 ≡ ok t.next_request_id)
            × (completed (submit options att (some client) callback t).1 t.next_request_id ≡ true))
  unfolding submit enter
  submit_completes options att client callback t unused never =
      let id = t.next_request_id in
      let r : Request C = new_request options att (some client) callback in
      let t₁ : Tracker C = record t {
        next_request_id = (id + 1) % 2 ^ 64;
        requests = emplace t.requests id r;
      } in
      let here : find t₁.requests id ≡ some r =
        ground (arith, find-emplace t.requests id r unused id) in
      let final : Whenever IsFinal (outcome id r (find t₁.http_responses id)) =
        unfold outcome accept in
        accept_with-IsFinal id r (find t₁.http_responses id) att client refl never in
      let all = finish id t₁ _ (advance id t₁) (advance-outcome id t₁ r here) final in
      ground (arith, unused, all)
