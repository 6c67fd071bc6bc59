-- ===== src/Tracker/State.antt =====
-- What the request tracker of include/ravl/request_tracker_impl.h stores, and the objects that it
-- is given: an attestation, an HTTP client and a callback, each by what a call of it does.
use ravl.Prelude.{ℕ, List, [], Option, none}
use ravl.Result.{Exception, Result}
use ravl.IdMap.{IdMap}
use ravl.Options.{Options}
use ravl.Http.Message.{HttpRequests, HttpResponses}

pub data RequestState : Type 0 where
  submitted waiting_for_endorsements have_endorsements finished error : RequestState

-- The virtual functions of `Attestation`. A `shared_ptr<Claims>` may be null.
pub record Attestation (C : Type 0) : Type 0 where
  pub prepare_endorsements : Options → Result (Option HttpRequests)
  pub verify : Options → Option HttpResponses → Result (Option C)

-- What `HTTPClient::submit` does with its callback: the synchronous client runs it before it
-- returns the identifier of the set, the asynchronous one later; either may throw instead.
pub data Submission : Type 0 where
  refused : Exception → Submission
  answered : ℕ → HttpResponses → Submission
  pending : ℕ → Submission

abbrev pub Client : Type 0
Client = HttpRequests → Submission

-- A callback returns or throws. What it asks of the tracker is a later event.
abbrev pub Callback : Type 0
Callback = ℕ → Result (Unit {0})

-- The pointers `attestation`, `claims`, `http_client` and the function `callback` may be null.
pub record Request (C : Type 0) : Type 0 where
  pub state : RequestState
  pub options : Options
  pub attestation : Option (Attestation C)
  pub claims : Option C
  pub http_client : Option Client
  pub callback : Option Callback
  pub http_request_set_id : Option ℕ

-- `called` lists the requests whose callback was called, and `released` the request sets that the
-- tracker told its HTTP client to erase, last first.
pub record Tracker (C : Type 0) : Type 0 where
  pub requests : IdMap (Request C)
  pub http_client : Option Client
  pub next_request_id : ℕ
  pub http_responses : IdMap HttpResponses
  pub called : List ℕ
  pub released : List ℕ

abbrev pub new_tracker : {C : Type 0} → Tracker C
new_tracker = record {
  requests = [];
  http_client = none;
  next_request_id = 0;
  http_responses = [];
  called = [];
  released = [];
}
