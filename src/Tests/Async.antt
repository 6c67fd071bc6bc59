-- ===== src/Tests/Async.antt =====
-- The asynchronous client at concrete inputs.
use ravl.Prelude.{
  ℕ, ◌+◌, ◌≡◌, refl, true, false, List, [], ◌∷◌, none, some, length, arith, bytes_eq, if◌then◌else◌,
}
use ravl.Result.{ok, err, undefined, length_error}
use ravl.IdMap.{find, size, assign, emplace}
use ravl.Http.Message.{
  HttpRequest, HttpRequests, get_request, no_response, emplace_header, find_header,
}
use ravl.Http.Curl.{
  HeaderBuffer, header_write_fun, find_colon, receive, body_write_fun, Transfer, transferred,
  must_retry, write_headers, write_body, execute_synchronous,
}
use ravl.Http.Sync.{SyncClient}
use ravl.Http.Sync
use ravl.Http.Async.{
  Callback, CurlClient, Setup, new_client, start_monitor, start_transfers, open_responses,
  open_multi, submit, finish, complete, consume_msg, consume_msgs, write_response, poll_wait,
  store_keep_going, erase_set,
}
use ravl.Http.Async.Events.{Event, submits, writes, waits, run}
use ravl.Http.Async.Pairs.{Pairs}
use ravl.Http.Async.Paired.{run-IsPaired}
use ravl.Http.Async.Served.{Served}
use ravl.Http.Async.Delivery.{session, session-submit}
use ravl.Http.Async.Stale.{store_keep_going_stale}

abbrev setup : Setup
setup = record { multi = some 7; easy_handles = 9; performs = true }

abbrev count : Callback ℕ
count rs n = (ok tt, n + length rs)

abbrev pages : HttpRequests
pages = get_request (97 ∷ []) ∷ get_request (98 ∷ []) ∷ []

-- The line "a: b", with its end.
abbrev line : HeaderBuffer
line = record { line = 97 ∷ 58 ∷ 32 ∷ 98 ∷ 13 ∷ 10 ∷ []; behind = 0 ∷ [] }

-- The value has the byte behind the line.
abbrev first : Served
first = record {
  status = 200;
  headers = line ∷ [];
  chunks = (1 ∷ []) ∷ [];
  answer = record { status = 200; headers = (97 ∷ [], 98 ∷ 13 ∷ 10 ∷ 0 ∷ []) ∷ []; body = 1 ∷ [] };
}

abbrev second : Served
second = record {
  status = 200;
  headers = [];
  chunks = [];
  answer = record { status = 200; headers = []; body = [] };
}

abbrev served : List Served
served = first ∷ second ∷ []

-- The second transfer ends first.
abbrev ends : List (ℕ × Served)
ends = (1, second) ∷ (0, first) ∷ []

abbrev perform : ℕ → HttpRequest → Transfer
perform n q =
    if bytes_eq q.url (97 ∷ [])
    then transferred 200 (line ∷ []) ((1 ∷ []) ∷ [])
    else transferred 200 [] []

-- A colon behind the line: the size of the value wraps around.
colon_run :
    header_write_fun no_response (record { line = 97 ∷ []; behind = 97 ∷ 58 ∷ 97 ∷ [] })
    ≡ err length_error
unfolding header_write_fun find_colon
colon_run = refl

session-submit_example :
    ((session setup pages ends count (new_client 0)).0 ≡ ok false)
    × ((session setup pages ends count (new_client 0)).1.world
        ≡ (Sync.submit (execute_synchronous perform 5) pages count (Sync.new_client 0)).1.world)
    × (find (session setup pages ends count (new_client 0)).1.requests 0 ≡ none)
unfolding size find receive write_headers write_body header_write_fun find_colon emplace_header
    find_header body_write_fun
session-submit_example =
    session-submit perform 4 setup 7 pages served ends count (new_client 0) (Sync.new_client 0) 2
      refl (omega arith) refl refl refl refl refl (refl, refl, refl, (refl, refl, refl, tt))
      (refl, (refl, (refl, (refl, tt)))) refl refl

abbrev events : List (Event ℕ)
events =
    submits setup pages (some count)
    ∷ writes 0 0 [] ((1 ∷ []) ∷ [])
    ∷ waits true 0 (record { done = true; index = some 0; status = 200 } ∷ [])
    ∷ []

abbrev waiting : CurlClient ℕ
waiting = record {
  monitor_threads =
      (0, record { object = 0; keep_going = true; multi = 7; callback = some count }) ∷ [];
  requests = (0, record { requests = pages; multi = 7 }) ∷ [];
  responses =
      (
        0,
        record { status = 200; headers = []; body = 1 ∷ [] }
            ∷ record { status = 0; headers = []; body = [] }
            ∷ [],
      )
      ∷ [];
  objects = 1;
  world = 0;
}

run-IsPaired_example : Pairs waiting.requests waiting.responses
unfolding run submit open_multi open_responses start_transfers start_monitor write_response
    poll_wait consume_msgs consume_msg complete finish must_retry write_headers write_body find size
    emplace assign
run-IsPaired_example = run-IsPaired 0 events waiting refl

-- The set 0 was delivered, and its thread has not yet stored the answer of its last poll.
abbrev leaving : CurlClient ℕ
leaving = record waiting { requests = []; responses = []; world = 2 }

-- The set 0 is erased, or delivered and its identifier taken again.
store_keep_going_stale_example :
    ((store_keep_going 0 0 false (submit setup pages (some count) (new_client 0)).1).0 ≡ ok tt)
    × ((store_keep_going 0 0 false
          (erase_set 0 (submit setup pages (some count) (new_client 0)).1).1).0
        ≡ undefined)
    × ((store_keep_going 0 0 false (submit setup pages (some count) leaving).1).0 ≡ undefined)
unfolding submit open_multi open_responses start_transfers find size
store_keep_going_stale_example =
    store_keep_going_stale setup setup pages pages (some count) (some count) (new_client 0) leaving
      0 false refl refl refl (omega arith) refl
