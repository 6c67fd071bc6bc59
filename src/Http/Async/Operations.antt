-- ===== src/Http/Async/Operations.antt =====
-- What each operation of the asynchronous client does to the invariant that responses belong to
-- requests.
use ravl.Prelude.{
  ℕ, ◌≡◌, refl, Bool, true, false, List, [], ◌∷◌, Option, none, some, length, ltb, replicate,
  get_elem?, arith, length-set, length-replicate, ◌==◌,
}
use ravl.Prelude.Cases.{if_cases, option_cases}
use ravl.Result.{Result, ok, err, undefined, result_cases}
use ravl.Exec.{Exec, continue, ◌>>=◌, ◌>>◌, modify, pure}
use ravl.IdMap.{find, size, erase, assign, emplace, find-assign_self, find-emplace}
use ravl.Http.Message.{HttpRequests, HttpResponses, no_response}
use ravl.Http.Curl.{HeaderBuffer, must_retry, write_headers, write_body}
use ravl.Http.Async.{
  TrackedRequests, Callback, CurlClient, Setup, CurlMsg, start_monitor, start_transfers,
  open_responses, open_multi, submit, finish, complete, consume_msg, consume_msgs, write_response,
  poll_wait, call_back, stop, poll_deliver, store_keep_going, erase_set,
}
use ravl.Http.Async.Pairs.{
  Owner, Pairs, assign-Pairs, emplace-Pairs, emplace_responses-Pairs, replace-Pairs, erase-Pairs,
  delivered-Pairs, other_size,
}

module _ {W : Type 0} where
  abbrev pub IsPaired : CurlClient W → Type 0
  IsPaired c = Pairs c.requests c.responses

  -- The client that a call leaves, and the one that it leaves if it returns.
  abbrev pub Leaves : {A : Type 0} → Result A × CurlClient W → Type 0
  Leaves r = IsPaired r.1

  abbrev pub Returns : {A : Type 0} → Result A × CurlClient W → Type 0
  Returns {A} r = (a : A) → r.0 ≡ ok a → IsPaired r.1

  start_transfers-IsPaired :
      (setup : Setup) (id multi n : ℕ) (callback : Option (Callback W)) (c : CurlClient W)
      → IsPaired c
      → Leaves (start_transfers setup id multi n callback c)
  unfolding start_transfers start_monitor
  start_transfers-IsPaired setup id multi n callback c p =
      if_cases Leaves (ltb setup.easy_handles n) _ _ (λ _. p)
        (λ _. if_cases Leaves setup.performs _ _ (λ _. p) (λ _. p))

  open_responses-IsPaired :
      (setup : Setup) (id multi : ℕ) (rs : HttpRequests) (callback : Option (Callback W))
      (c : CurlClient W)
      → IsPaired c
      → Owner c.requests id (length rs)
      → Leaves (open_responses setup id multi rs callback c)
  unfolding open_responses
  open_responses-IsPaired setup id multi rs callback c p own =
      option_cases Leaves (find c.responses id) _ _
        (λ new.
          start_transfers-IsPaired setup id multi (length rs) callback
            (record c { responses = emplace c.responses id (replicate (length rs) no_response) })
            (emplace_responses-Pairs c.requests c.responses id (replicate (length rs) no_response) p
              new (rw (length-replicate (length rs) no_response) own)))
        (λ old _. p)

  open_multi-IsPaired :
      (setup : Setup) (id : ℕ) (rs : HttpRequests) (callback : Option (Callback W))
      (c : CurlClient W)
      → IsPaired c
      → find c.requests id ≡ some (record { requests = rs; multi = 0 })
      → Leaves (open_multi setup id rs callback c)
  unfolding open_multi
  open_multi-IsPaired setup id rs callback c p here =
      option_cases Leaves setup.multi _ _ (λ _. p)
        (λ multi _.
          open_responses-IsPaired setup id multi rs callback _
            (replace-Pairs c.requests c.responses id (record { requests = rs; multi = 0 })
              (record { requests = rs; multi = multi }) p here refl)
            (record {
              owner = record { requests = rs; multi = multi };
              found = find-assign_self c.requests id _;
              same_size = refl;
            }))

  pub submit-IsPaired :
      (setup : Setup) (rs : HttpRequests) (callback : Option (Callback W)) (c : CurlClient W)
      → IsPaired c
      → Leaves (submit setup rs callback c)
  unfolding submit
  submit-IsPaired setup rs callback c p =
      let id = size c.requests in
      let t : TrackedRequests = record { requests = rs; multi = 0 } in
      option_cases Leaves (find c.requests id) _ _
        (λ new.
          open_multi-IsPaired setup id rs callback (record c { requests = emplace c.requests id t })
            (emplace-Pairs c.requests c.responses id t p new)
            (ground (arith, find-emplace c.requests id t new id)))
        (λ old _. p)

  bind_Returns :
      {A B : Type 0} (m : Exec (CurlClient W) A) (f : A → Exec (CurlClient W) B) (c : CurlClient W)
      → Returns (m c)
      → ((a : A) (c' : CurlClient W) → IsPaired c' → Returns (f a c'))
      → Returns ((m >>= f) c)
  bind_Returns m f c h k = go (m c).0 refl
    where
      go : (r : Result _) → (m c).0 ≡ r → Returns (continue r f (m c).1)
      go (ok a) e = k a (m c).1 (h a e)
      go (err x) e = λ b bad. absurd cc
      go undefined e = λ b bad. absurd cc

  finish-IsPaired :
      (id i status : ℕ) (rs : HttpResponses) (c : CurlClient W)
      → IsPaired c
      → Owner c.requests id (length rs)
      → Leaves (finish id i status rs c)
  unfolding finish
  finish-IsPaired id i status rs c p own =
      option_cases Leaves (get_elem? rs i) _ _ (λ _. p)
        (λ r e.
          assign-Pairs c.requests c.responses id _ p
            (rw (length-set rs i (must_retry (record r { status = status })).1) own))

  complete-IsPaired :
      (id i status : ℕ) (c : CurlClient W) → IsPaired c → Leaves (complete id i status c)
  unfolding complete
  complete-IsPaired id i status c p =
      option_cases Leaves (find c.requests id) _ _ (λ _. p)
        (λ reqs here.
          option_cases Leaves (find c.responses id) _ _ (λ _. p)
            (λ rs found.
              if_cases Leaves (length rs == length reqs.requests) _ _
                (λ _. finish-IsPaired id i status rs c p (p id rs found))
                (λ other. absurd (other_size reqs (p id rs found) here other))))

  consume_msg-IsPaired :
      (id : ℕ) (m : CurlMsg) (c : CurlClient W) → IsPaired c → Leaves (consume_msg id m c)
  unfolding consume_msg
  consume_msg-IsPaired id m c p =
      if_cases Leaves m.done _ _
        (λ _. option_cases Leaves m.index _ _ (λ _. p) (λ i _. complete-IsPaired id i m.status c p))
        (λ _. p)

  consume_msgs-IsPaired :
      (id : ℕ) (ms : List CurlMsg) (c : CurlClient W) → IsPaired c → Returns (consume_msgs id ms c)
  unfolding consume_msgs
  consume_msgs-IsPaired id [] c p = λ _ _. p
  consume_msgs-IsPaired id (m ∷ ms) c p =
      bind_Returns (consume_msg id m) (λ _. consume_msgs id ms) c
        (λ _ _. consume_msg-IsPaired id m c p) (λ _ c' p'. consume_msgs-IsPaired id ms c' p')

  pub write_response-IsPaired :
      (id i : ℕ) (headers : List HeaderBuffer) (chunks : List (List ℕ)) (c : CurlClient W)
      → IsPaired c
      → Leaves (write_response id i headers chunks c)
  unfolding write_response
  write_response-IsPaired id i headers chunks c p =
      option_cases Leaves (find c.responses id) _ _ (λ _. p)
        (λ rs found.
          option_cases Leaves (get_elem? rs i) _ _ (λ _. p)
            (λ r e.
              result_cases Leaves (write_headers r headers) _ _ _
                (λ r'.
                  assign-Pairs c.requests c.responses id _ p
                    (rw (length-set rs i (write_body r' chunks)) (p id rs found)))
                (λ x. p) p))

  call_back-IsPaired :
      (id : ℕ) (callback : Callback W) (c : CurlClient W)
      → IsPaired c
      → Returns (call_back id callback c)
  unfolding call_back
  call_back-IsPaired id callback c p =
      option_cases Returns (find c.responses id) _ _ (λ _. λ _ bad. absurd cc)
        (λ rs _. go rs (callback rs c.world).0)
    where
      go :
          (rs : HttpResponses) (r : Result (Unit {0}))
          → Returns {A = Unit {0}} (elim r [
            | ok _ ↦ (
              ok tt,
              record c {
                requests = erase c.requests id;
                responses = erase (assign c.responses id []) id;
                world = (callback rs c.world).1;
              },
            )
            | err e ↦ (
              err e,
              record c { responses = assign c.responses id []; world = (callback rs c.world).1 },
            )
            | undefined ↦ (
              undefined,
              record c { responses = assign c.responses id []; world = (callback rs c.world).1 },
            )
          ])
      go rs (ok _) = λ _ _. delivered-Pairs c.requests c.responses id p
      go rs (err e) = λ _ bad. absurd cc
      go rs undefined = λ _ bad. absurd cc

  stop-IsPaired : (id : ℕ) (c : CurlClient W) → IsPaired c → IsPaired (stop id c)
  unfolding stop
  stop-IsPaired id c p = option_cases IsPaired (find c.monitor_threads id) _ _ (λ _. p) (λ _ _. p)

  pub poll_wait-IsPaired :
      (waits : Bool) (id : ℕ) (ms : List CurlMsg) (c : CurlClient W)
      → IsPaired c
      → Returns (poll_wait waits id ms c)
  unfolding poll_wait
  poll_wait-IsPaired true id ms c p =
      bind_Returns (consume_msgs id ms) (λ _. pure true) c (consume_msgs-IsPaired id ms c p)
        (λ _ c' p' _ _. p')
  poll_wait-IsPaired false id ms c p = λ _ bad. absurd cc

  pub poll_deliver-IsPaired :
      (id : ℕ) (ms : List CurlMsg) (callback : Option (Callback W)) (c : CurlClient W)
      → IsPaired c
      → Returns (poll_deliver id ms callback c)
  unfolding poll_deliver
  poll_deliver-IsPaired id ms none c p = λ _ _. stop-IsPaired id c p
  poll_deliver-IsPaired id ms (some f) c p =
      bind_Returns (consume_msgs id ms >> call_back id f) (λ _. modify (stop id) >> pure false) c
        (bind_Returns (consume_msgs id ms) (λ _. call_back id f) c (consume_msgs-IsPaired id ms c p)
          (λ _ c' p'. call_back-IsPaired id f c' p'))
        (λ _ c' p' _ _. stop-IsPaired id c' p')

  pub erase_set-IsPaired : (id : ℕ) (c : CurlClient W) → IsPaired c → Leaves (erase_set id c)
  unfolding erase_set
  erase_set-IsPaired id c p =
      option_cases Leaves (find c.monitor_threads id) _ _ (λ _. p)
        (λ _ _. erase-Pairs c.requests c.responses id p)

  pub store_keep_going-IsPaired :
      (id object : ℕ) (b : Bool) (c : CurlClient W)
      → IsPaired c
      → Leaves (store_keep_going id object b c)
  unfolding store_keep_going
  store_keep_going-IsPaired id object b c p =
      option_cases Leaves (find c.monitor_threads id) _ _ (λ _. p)
        (λ t _. if_cases Leaves (t.object == object) _ _ (λ _. p) (λ _. p))
