-- ===== src/Http/Async/Events.antt =====
-- The calls of the asynchronous client and the sections of its threads, in any order.
use ravl.Prelude.{ℕ, Bool, List, [], ◌∷◌, Option, none, some}
use ravl.Result.{Result, ok, err, undefined}
use ravl.IdMap.{find}
use ravl.Http.Message.{HttpRequests}
use ravl.Http.Curl.{HeaderBuffer}
use ravl.Http.Async.{
  Callback, MonitorThread, CurlClient, Setup, CurlMsg, submit, write_response, poll_wait,
  poll_deliver, store_keep_going, erase_set,
}

-- A client calls `submit` and `erase`; libcurl writes; a thread polls, and stores the answer.
pub data Event (W : Type 0) : Type 0 where
  submits : Setup → HttpRequests → Option (Callback W) → Event W
  erases : (id : ℕ) → Event W
  writes : (id i : ℕ) → List HeaderBuffer → List (List ℕ) → Event W
  waits : Bool → (id : ℕ) → List CurlMsg → Event W
  delivers : (id : ℕ) → List CurlMsg → Event W
  stores : (id object : ℕ) → Bool → Event W

module _ {W : Type 0} where
  -- An exception of `submit` is the caller's; one that leaves a thread ends the program.
  abbrev pub caught : Result ℕ × CurlClient W → Option (CurlClient W)
  caught (ok id, c) = some c
  caught (err e, c) = some c
  caught (undefined, c) = none

  abbrev pub uncaught {ℓ} : {A : Type ℓ} → Result A × CurlClient W → Option (CurlClient W)
  uncaught (ok a, c) = some c
  uncaught (err e, c) = none
  uncaught (undefined, c) = none

  -- The callback is the thread's own.
  abbrev pub own_callback : Option (MonitorThread W) → Option (Callback W)
  own_callback none = none
  own_callback (some t) = t.callback

  abbrev pub step : CurlClient W → Event W → Option (CurlClient W)
  step c (submits setup rs callback) = caught (submit setup rs callback c)
  step c (erases id) = uncaught (erase_set id c)
  step c (writes id i headers chunks) = uncaught (write_response id i headers chunks c)
  step c (waits ok_wait id msgs) = uncaught (poll_wait ok_wait id msgs c)
  step c (delivers id msgs) =
      uncaught (poll_deliver id msgs (own_callback (find c.monitor_threads id)) c)
  step c (stores id object b) = uncaught (store_keep_going id object b c)

  -- The client after a sequence of events, if the program is still defined and running.
  unfoldable pub run : CurlClient W → List (Event W) → Option (CurlClient W)
  run c [] = some c
  run c (e ∷ es) = elim (step c e) [ none ↦ none | some c' ↦ run c' es ]
