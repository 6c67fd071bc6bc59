-- ===== src/Entry.antt =====
-- `verify_synchronous` of include/ravl/ravl_impl.h.
pub mod Same
use ravl.Prelude.{Option, none, some}
use ravl.Result.{Result, ok, ◌>>=◌}
use ravl.Exec.{Exec, modify}
use ravl.Options.{Options}
use ravl.Http.Message.{HttpRequest, HttpResponse, HttpRequests, HttpResponses}
use ravl.Http.Sync.{new_client, submit}
use ravl.Tracker.State.{Attestation}

-- `http_responses = std::move(r);`
abbrev pub keep_responses : HttpResponses → Exec (Option HttpResponses) (Unit {0})
keep_responses rs = modify (λ w. some rs)

-- `execute` is one transfer of the new client, with the timeout and attempts of the options.
module _ (execute : HttpRequest → Result HttpResponse) where
  unfoldable pub fetch : Option HttpRequests → Result (Option HttpResponses)
  fetch none = ok none
  fetch (some requests) =
      let (submitted, client) = submit execute requests keep_responses (new_client none) in
      submitted >>= λ id. ok client.world

  unfoldable pub verify_synchronous : {C : Type 0} → Attestation C → Options → Result (Option C)
  unfolding fetch
  verify_synchronous att options = do
    requests ← att.prepare_endorsements options
    responses ← fetch requests
    att.verify options responses
