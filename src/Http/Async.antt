-- ===== src/Http/Async.antt =====
-- `CurlClient`, the implementation of `AsynchronousHTTPClient` in src/http_client_curl.cpp. Each
-- function is what runs under the mutex at a stretch; what libcurl answers is an argument.
pub mod Events
pub mod Pairs
pub mod Operations
pub mod Paired
pub mod Served
pub mod Delivery
pub mod Stale
use ravl.Prelude.{
  ℕ, zero, suc, ◌+◌, ◌-◌, Bool, true, false, not, ◌&&◌, List, [], ◌∷◌, ◌++◌, Option, none, some,
  length, get_elem?, set, take, replicate, leb, ltb, ◌==◌, if◌then◌else◌,
}
use ravl.Result.{Result, ok, err, undefined, runtime_error, bad_alloc}
use ravl.Exec.{Exec, pure, throw, modify, ◌>>=◌, ◌>>◌}
use ravl.IdMap.{IdMap, find, size, erase, assign, emplace}
use ravl.Http.Message.{HttpRequest, HttpResponse, HttpRequests, HttpResponses, no_response}
use ravl.Http.Curl.{HeaderBuffer, write_headers, write_body, must_retry}

-- `CURLM*` is a number, 0 for NULL.
pub record TrackedRequests : Type 0 where
  pub requests : HttpRequests
  pub multi : ℕ

-- `world` is what the callbacks can change.
abbrev pub Callback : Type 0 → Type 0
Callback W = HttpResponses → Exec W (Unit {0})

-- `MonitorThread`; `object` tells one object from every other.
pub record MonitorThread (W : Type 0) : Type 0 where
  pub object : ℕ
  pub keep_going : Bool
  pub multi : ℕ
  pub callback : Option (Callback W)

-- `objects` counts the monitor threads that were constructed.
pub record CurlClient (W : Type 0) : Type 0 where
  pub monitor_threads : IdMap (MonitorThread W)
  pub requests : IdMap TrackedRequests
  pub responses : IdMap HttpResponses
  pub objects : ℕ
  pub world : W

abbrev pub new_client : {W : Type 0} → W → CurlClient W
new_client w = record {
  monitor_threads = [];
  requests = [];
  responses = [];
  objects = 0;
  world = w;
}

-- What libcurl does in `submit`: the multi handle, how many easy handles it makes, and whether
-- `curl_multi_perform` succeeds.
pub record Setup : Type 0 where
  pub multi : Option ℕ
  pub easy_handles : ℕ
  pub performs : Bool

-- What `curl_multi_info_read` returns: whether the transfer is done, the index that is its private
-- data, if this can be read, and the status of the response.
pub record CurlMsg : Type 0 where
  pub done : Bool
  pub index : Option ℕ
  pub status : ℕ

-- `rsit->second.resize(n)`
abbrev pub resize_responses : HttpResponses → ℕ → HttpResponses
resize_responses rs n = take n rs ++ replicate (n - length rs) no_response

-- Every status is set.
abbrev pub all_answered : HttpResponses → Bool
all_answered [] = true
all_answered (r ∷ rs) = not (r.status == 0) && all_answered rs

module _ {W : Type 0} where
  -- The thread of the set; one that was there before is destroyed.
  unfoldable pub start_monitor : ℕ → ℕ → Option (Callback W) → CurlClient W → CurlClient W
  start_monitor id multi callback c = record c {
    monitor_threads =
        assign c.monitor_threads id
          (record { object = c.objects; keep_going = true; multi = multi; callback = callback });
    objects = c.objects + 1;
  }

  -- `submit` behind the two maps: the easy handles and their start.
  unfoldable pub start_transfers : Setup → ℕ → ℕ → ℕ → Option (Callback W) → Exec (CurlClient W) ℕ
  start_transfers setup id multi n callback c =
      if ltb setup.easy_handles n
      then (err bad_alloc, c)
      else if setup.performs
      then (ok id, start_monitor id multi callback c)
      else (err (runtime_error "curl_multi_perform unsuccessful"), c)

  unfoldable pub open_responses :
      Setup → ℕ → ℕ → HttpRequests → Option (Callback W) → Exec (CurlClient W) ℕ
  open_responses setup id multi rs callback c = elim (find c.responses id) [
    | some old ↦ (err bad_alloc, c)
    | none ↦
        start_transfers setup id multi (length rs) callback
          (record c { responses = emplace c.responses id (replicate (length rs) no_response) })
  ]

  unfoldable pub open_multi : Setup → ℕ → HttpRequests → Option (Callback W) → Exec (CurlClient W) ℕ
  open_multi setup id rs callback c = elim setup.multi [
    | none ↦ (err bad_alloc, c)
    | some multi ↦
        open_responses setup id multi rs callback
          (record c { requests = assign c.requests id (record { requests = rs; multi = multi }) })
  ]

  unfoldable pub submit : Setup → HttpRequests → Option (Callback W) → Exec (CurlClient W) ℕ
  submit setup rs callback c =
      let id = size c.requests in
      elim (find c.requests id) [
        | some old ↦ (err bad_alloc, c)
        | none ↦
            open_multi setup id rs callback
              (record c { requests = emplace c.requests id (record { requests = rs; multi = 0 }) })
      ]

  -- The response of a finished transfer: its status, or nothing if the transfer is tried again.
  unfoldable pub finish : ℕ → ℕ → ℕ → HttpResponses → Exec (CurlClient W) (Unit {0})
  finish id i status rs c = elim (get_elem? rs i) [
    | none ↦ (err (runtime_error "request index too large"), c)
    | some r ↦
        let (again, response) = must_retry (record r { status = status }) in
        (ok tt, record c { responses = assign c.responses id (set rs i response) })
  ]

  unfoldable pub complete : ℕ → ℕ → ℕ → Exec (CurlClient W) (Unit {0})
  complete id i status c = elim (find c.requests id) [
    | none ↦ (ok tt, c)
    | some reqs ↦ elim (find c.responses id) [
      | none ↦ (err (runtime_error "response set not found"), c)
      | some rs ↦
          let n = length reqs.requests in
          if length rs == n
          then finish id i status rs c
          else finish id i status (resize_responses rs n)
              (record c { responses = assign c.responses id (resize_responses rs n) })
    ]
  ]

  unfoldable pub consume_msg : ℕ → CurlMsg → Exec (CurlClient W) (Unit {0})
  consume_msg id m c =
      if m.done
      then elim m.index [ none ↦ (ok tt, c) | some i ↦ complete id i m.status c ]
      else (ok tt, c)

  unfoldable pub consume_msgs : ℕ → List CurlMsg → Exec (CurlClient W) (Unit {0})
  consume_msgs id [] = pure tt
  consume_msgs id (m ∷ ms) = do consume_msg id m; consume_msgs id ms

  -- The write functions, which libcurl calls on the response that it was given; the reference is
  -- good as long as the response is there. An exception goes through libcurl to the caller.
  unfoldable pub write_response :
      ℕ → ℕ → List HeaderBuffer → List (List ℕ) → Exec (CurlClient W) (Unit {0})
  write_response id i headers chunks c = elim (find c.responses id) [
    | none ↦ (undefined, c)
    | some rs ↦ elim (get_elem? rs i) [
      | none ↦ (undefined, c)
      | some r ↦ elim (write_headers r headers) [
        | err e ↦ (err e, c)
        | undefined ↦ (undefined, c)
        | ok r' ↦ (
          ok tt,
          record c { responses = assign c.responses id (set rs i (write_body r' chunks)) },
        )
      ]
    ]
  ]

  -- `is_complete`, where `curl_multi_perform` succeeds or not, and leaves transfers running.
  unfoldable pub is_complete : Bool → ℕ → ℕ → CurlClient W → Result Bool
  is_complete performs still_running id c = elim (find c.requests id) [
    | none ↦ err (runtime_error "no such request set")
    | some reqs ↦
        if not performs
        then ok true
        else if ltb 0 still_running
        then ok false
        else elim (find c.responses id) [ none ↦ ok false | some rs ↦ ok (all_answered rs) ]
  ]

  -- `poll` of a set that is not complete; `waits` is whether `curl_multi_wait` succeeds.
  unfoldable pub poll_wait : Bool → ℕ → List CurlMsg → Exec (CurlClient W) Bool
  poll_wait waits id msgs = do
    if waits then pure tt else throw (runtime_error "curl_multi_wait failed")
    consume_msgs id msgs
    pure true

  -- `rs.swap(rsps_it->second); callback(std::move(rs));` and what follows it.
  unfoldable pub call_back : ℕ → Callback W → Exec (CurlClient W) (Unit {0})
  call_back id callback c = elim (find c.responses id) [
    | none ↦ (err (runtime_error "could not find url responses"), c)
    | some rs ↦
        let (r, w) = callback rs c.world in
        let c' = record c { responses = assign c.responses id []; world = w } in
        elim r [
          | ok _ ↦ (
            ok tt,
            record c' { responses = erase c'.responses id; requests = erase c'.requests id },
          )
          | err e ↦ (err e, c')
          | undefined ↦ (undefined, c')
        ]
  ]

  unfoldable pub stop : ℕ → CurlClient W → CurlClient W
  stop id c = elim (find c.monitor_threads id) [
    | none ↦ c
    | some t ↦ record c {
      monitor_threads = assign c.monitor_threads id (record t { keep_going = false });
    }
  ]

  -- `poll` of a complete set.
  unfoldable pub poll_deliver : ℕ → List CurlMsg → Option (Callback W) → Exec (CurlClient W) Bool
  poll_deliver id msgs callback = do
    elim callback [ none ↦ pure tt | some f ↦ (consume_msgs id msgs >> call_back id f) ]
    modify (stop id)
    pure false

  -- `keep_going = client->poll(...)` in `run`, in the thread whose object it is.
  unfoldable pub store_keep_going : ℕ → ℕ → Bool → Exec (CurlClient W) (Unit {0})
  store_keep_going id object keep_going c = elim (find c.monitor_threads id) [
    | none ↦ (undefined, c)
    | some t ↦
        if t.object == object
        then (
          ok tt,
          record c {
            monitor_threads = assign c.monitor_threads id (record t { keep_going = keep_going });
          },
        )
        else (undefined, c)
  ]

  -- `erase`: the iterator of a set without a thread is erased too, which is undefined.
  unfoldable pub erase_set : ℕ → Exec (CurlClient W) (Unit {0})
  erase_set id c = elim (find c.monitor_threads id) [
    | none ↦ (undefined, c)
    | some t ↦ (
      ok tt,
      record c {
        monitor_threads = erase c.monitor_threads id;
        requests = erase c.requests id;
        responses = erase c.responses id;
      },
    )
  ]
