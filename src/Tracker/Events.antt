-- ===== src/Tracker/Events.antt =====
-- The life of a tracker as a sequence of calls, of its user and of its HTTP client. An execution
-- with undefined behaviour has no step.
use ravl.Prelude.{ℕ, ◌≡◌, ◌≢◌, Option}
use ravl.Result.{undefined}
use ravl.Exec.{Exec}
use ravl.Options.{Options}
use ravl.Http.Message.{HttpResponses}
use ravl.Tracker.State.{Attestation, Client, Callback, Tracker, new_tracker}
use ravl.Tracker.Advance.{advance, on_responses}
use ravl.Tracker.Api.{submit, erase_request}

-- A call that has run from `t` to `u`, whether it returned or threw.
abbrev pub Ran : {A C : Type 0} → Exec (Tracker C) A → Tracker C → Tracker C → Type 0
Ran m t u = ((m t).0 ≢ undefined) × (u ≡ (m t).1)

pub data Step {C : Type 0} (t u : Tracker C) : Type 0 where
  submits :
      (options : Options) (att : Option (Attestation C)) (client : Option Client)
      (callback : Option Callback)
      → Ran (submit options att client callback) t u
      → Step t u
  advances : (id : ℕ) → Ran (advance id) t u → Step t u
  responds : (id : ℕ) (rs : HttpResponses) → Ran (on_responses advance id rs) t u → Step t u
  erases : (id : ℕ) → u ≡ erase_request id t → Step t u

pub data Reach {C : Type 0} : Tracker C → Type 0 where
  start : Reach new_tracker
  next : {t u : Tracker C} → Reach t → Step t u → Reach u
