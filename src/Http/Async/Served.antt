-- ===== src/Http/Async/Served.antt =====
-- What libcurl writes and reports for a set of requests, and what the asynchronous client keeps of it.
use mathlib.Core.Path.{subst}
use mathlib.Core.Option.{some-injective}
use ravl.Prelude.{
  ℕ, zero, suc, ◌<◌, ◌≡◌, ◌≢◌, refl, sym, ap, ◌∙◌, Bool, true, false, List, [], ◌∷◌, none, some,
  length, map, set, get_elem?, replicate, arith, length-set, get_elem?-set_self,
}
use ravl.Result.{ok, bind_returned, ok-injective}
use ravl.Exec.{Exec, pure, ◌>>=◌, ◌>>◌}
use ravl.IdMap.{IdMap, find, assign, find-assign_self}
use ravl.Http.Message.{HttpResponse, HttpResponses, no_response}
use ravl.Http.Curl.{HeaderBuffer, write_headers, write_body, must_retry, receive}
use ravl.Http.Async.{
  TrackedRequests, CurlClient, write_response, consume_msg, complete, finish, all_answered,
}

-- What libcurl does for one request: the status, and the calls of the write functions; and what they
-- make of a new response.
pub record Served : Type 0 where
  pub status : ℕ
  pub headers : List HeaderBuffer
  pub chunks : List (List ℕ)
  pub answer : HttpResponse

-- The write functions return, and the response is the one that is given.
abbrev pub IsReceived : Served → Type 0
IsReceived s = receive no_response s.status s.headers s.chunks ≡ ok s.answer

-- The response before the status is set.
written :
    (s : Served)
    → IsReceived s
    → (r : HttpResponse) × (write_headers no_response s.headers ≡ ok r)
      × (record (write_body r s.chunks) { status = s.status } ≡ s.answer)
unfolding receive
written s h =
    let (r, e, f) = bind_returned (write_headers no_response s.headers) _ h in
    (r, f, ok-injective _ s.answer e)

pub status_received : (s : Served) → IsReceived s → s.status ≡ s.answer.status
status_received s h = let (r, _, same) = written s h in ap (λ a. a.status) same

abbrev pub answers : List Served → HttpResponses
answers ss = map (λ s. s.answer) ss

module _ {ℓ κ} {A : Type ℓ} {B : Type κ} where
  get_elem?-map :
      (f : A → B) (xs : List A) (i : ℕ) (x : A)
      → get_elem? xs i ≡ some x
      → get_elem? (map f xs) i ≡ some (f x)
  get_elem?-map f [] i x h = absurd cc
  get_elem?-map f (y ∷ xs) zero x h = ap (λ o. elim o [ none ↦ some (f x) | some z ↦ some (f z) ]) h
  get_elem?-map f (y ∷ xs) (suc i) x h = get_elem?-map f xs i x h

  set-map : (f : A → B) (xs : List A) (i : ℕ) (x : A) → set (map f xs) i (f x) ≡ map f (set xs i x)
  set-map f [] i x = refl
  set-map f (y ∷ xs) zero x = refl
  set-map f (y ∷ xs) (suc i) x = ap (λ l. f y ∷ l) (set-map f xs i x)

  length-map : (f : A → B) (xs : List A) → length (map f xs) ≡ length xs
  length-map f [] = refl
  length-map f (x ∷ xs) = ap suc (length-map f xs)

module _ {ℓ} {A : Type ℓ} where
  set-set : (xs : List A) (i : ℕ) (x y : A) → set (set xs i x) i y ≡ set xs i y
  set-set [] i x y = refl
  set-set (z ∷ xs) zero x y = refl
  set-set (z ∷ xs) (suc i) x y = ap (λ l. z ∷ l) (set-set xs i x y)

  set_same : (xs : List A) (i : ℕ) (x : A) → get_elem? xs i ≡ some x → set xs i x ≡ xs
  set_same [] i x h = refl
  set_same (z ∷ xs) zero x h = ap (λ o. elim o [ none ↦ x ∷ xs | some y ↦ y ∷ xs ]) (sym h)
  set_same (z ∷ xs) (suc i) x h = ap (λ l. z ∷ l) (set_same xs i x h)

  inside : (xs : List A) (i : ℕ) (x : A) → get_elem? xs i ≡ some x → i < length xs
  inside [] i x h = absurd cc
  inside (y ∷ xs) zero x h = omega arith
  inside (y ∷ xs) (suc i) x h = omega (arith, inside xs i x h)

pub must_retry_lem : (r : HttpResponse) → r.status ≢ 429 → must_retry r ≡ (false, r)
unfolding must_retry
must_retry_lem r h = ground (arith, h)

-- The transfer is received, and ends with a status that is not "too many requests", and is not 0.
abbrev pub IsFinal : Served → Type 0
IsFinal s = (s.status ≢ 429) × (0 < s.status) × IsReceived s

abbrev pub AllFinal : List Served → Type 0
AllFinal [] = Unit {0}
AllFinal (s ∷ ss) = IsFinal s × AllFinal ss

pub all_answered-answers : (ss : List Served) → AllFinal ss → all_answered (answers ss) ≡ true
all_answered-answers [] h = refl
all_answered-answers (s ∷ ss) h =
    ground (arith, status_received s h.0.2, h.0.1, all_answered-answers ss h.1)

-- The transfers of a set, with those that have ended marked.
abbrev pub Progress : Type 0
Progress = List (Bool × Served)

abbrev pub begin : List Served → Progress
begin ss = map (λ s. (false, s)) ss

abbrev pub transfers : Progress → List Served
transfers ps = map (λ p. p.1) ps

abbrev pub stored : Bool × Served → HttpResponse
stored (true, s) = s.answer
stored (false, s) = no_response

abbrev AllEnded : Progress → Type 0
AllEnded [] = Unit {0}
AllEnded ((b, s) ∷ ps) = (b ≡ true) × AllEnded ps

-- The transfers end in the order of the list: each of those that have not ended ends once, at its
-- index.
abbrev pub Ends : Progress → List (ℕ × Served) → Type 0
Ends ps [] = AllEnded ps
Ends ps ((i, s) ∷ ends) = (get_elem? ps i ≡ some (false, s)) × Ends (set ps i (true, s)) ends

stored_ended : (ps : Progress) → AllEnded ps → map stored ps ≡ answers (transfers ps)
stored_ended [] h = refl
stored_ended ((true, s) ∷ ps) h = ap (λ l. s.answer ∷ l) (stored_ended ps h.1)
stored_ended ((false, s) ∷ ps) h = absurd (ground (arith, h.0))

IsFinal-get :
    (ps : Progress) (i : ℕ) (p : Bool × Served)
    → AllFinal (transfers ps)
    → get_elem? ps i ≡ some p
    → IsFinal p.1
IsFinal-get [] i p final h = absurd cc
IsFinal-get (q ∷ ps) zero p final h = subst (λ q. IsFinal q.1) (some-injective q p h) final.0
IsFinal-get (q ∷ ps) (suc i) p final h = IsFinal-get ps i p final.1 h

transfers-set :
    (ps : Progress) (i : ℕ) (s : Served)
    → get_elem? ps i ≡ some (false, s)
    → transfers (set ps i (true, s)) ≡ transfers ps
transfers-set ps i s h =
    sym (set-map (λ p. p.1) ps i (true, s))
    ∙ set_same (transfers ps) i s (get_elem?-map (λ p. p.1) ps i (false, s) h)

-- At the start, the responses are new.
pub stored-begin : (ss : List Served) → map stored (begin ss) ≡ replicate (length ss) no_response
stored-begin [] = refl
stored-begin (s ∷ ss) = ap (λ l. no_response ∷ l) (stored-begin ss)

pub length-begin : (ss : List Served) → length (begin ss) ≡ length ss
length-begin ss = length-map (λ s. (false, s)) ss

pub transfers-begin : (ss : List Served) → transfers (begin ss) ≡ ss
transfers-begin [] = refl
transfers-begin (s ∷ ss) = ap (λ l. s ∷ l) (transfers-begin ss)

module _ {W : Type 0} where
  -- libcurl writes and reports the transfers, in the order in which they end.
  abbrev pub serve : ℕ → List (ℕ × Served) → Exec (CurlClient W) (Unit {0})
  serve id [] = pure tt
  serve id ((i, s) ∷ ends) = do
    write_response id i s.headers s.chunks
    consume_msg id (record { done = true; index = some i; status = s.status })
    serve id ends

  write_lem :
      (id i : ℕ) (rs : HttpResponses) (r r' : HttpResponse) (s : Served) (c : CurlClient W)
      → find c.responses id ≡ some rs
      → get_elem? rs i ≡ some r
      → write_headers r s.headers ≡ ok r'
      → write_response id i s.headers s.chunks c ≡ (
        ok tt,
        record c { responses = assign c.responses id (set rs i (write_body r' s.chunks)) },
      )
  unfolding write_response
  write_lem id i rs r r' s c found here e = ground (arith, found, here, e)

  consume_lem :
      (id i status : ℕ) (rs : HttpResponses) (r : HttpResponse) (t : TrackedRequests)
      (c : CurlClient W)
      → find c.requests id ≡ some t
      → find c.responses id ≡ some rs
      → length rs ≡ length t.requests
      → get_elem? rs i ≡ some r
      → i < length t.requests
      → status ≢ 429
      → consume_msg id (record { done = true; index = some i; status = status }) c ≡ (
        ok tt,
        record c { responses = assign c.responses id (set rs i (record r { status = status })) },
      )
  unfolding consume_msg complete finish
  consume_lem id i status rs r t c tracked found same here in_set no_retry = ground (
    arith,
    tracked,
    found,
    same,
    here,
    in_set,
    must_retry_lem (record r { status = status }) no_retry,
  )

  pub then_lem :
      {A B : Type 0} (m : Exec (CurlClient W) A) (n : Exec (CurlClient W) B) (c c' : CurlClient W)
      {a : A}
      → m c ≡ (ok a, c')
      → (m >> n) c ≡ n c'
  then_lem m n c c' e = rw e refl

  pub bind_lem :
      {A B : Type 0} (m : Exec (CurlClient W) A) (f : A → Exec (CurlClient W) B)
      (c c' : CurlClient W) {a : A}
      → m c ≡ (ok a, c')
      → (m >>= f) c ≡ f a c'
  bind_lem m f c c' e = rw e refl

  pub serve_lem :
      (ends : List (ℕ × Served)) (ps : Progress) (id : ℕ) (t : TrackedRequests) (c : CurlClient W)
      → find c.requests id ≡ some t
      → find c.responses id ≡ some (map stored ps)
      → length ps ≡ length t.requests
      → AllFinal (transfers ps)
      → Ends ps ends
      → (m : IdMap HttpResponses) × (serve id ends c ≡ (ok tt, record c { responses = m }))
        × (find m id ≡ some (answers (transfers ps)))
  serve_lem [] ps id t c tracked found same final h =
      (c.responses, refl, found ∙ ap some (stored_ended ps h))
  serve_lem ((i, s) ∷ ends) ps id t c tracked found same final h =
      let rs = map stored ps in
      let is_final = IsFinal-get ps i (false, s) final h.0 in
      let (r', headers, same_answer) = written s is_final.2 in
      let r : HttpResponse = write_body r' s.chunks in
      let ps' = set ps i (true, s) in
      let in_set : i < length rs =
        omega (arith, length-map stored ps, inside ps i (false, s) h.0) in
      let c₁ : CurlClient W = record c { responses = assign c.responses id (set rs i r) } in
      let c₂ : CurlClient W = record c₁ { responses = assign c₁.responses id (map stored ps') } in
      let next : set (set rs i r) i (record r { status = s.status }) ≡ map stored ps' =
        set-set rs i r (record r { status = s.status })
        ∙ ap (λ a. set rs i a) same_answer
        ∙ set-map stored ps i (true, s) in
      let write =
        write_lem id i rs no_response r' s c found (get_elem?-map stored ps i (false, s) h.0)
          headers in
      let consume =
        consume_lem id i s.status (set rs i r) r t c₁ tracked (find-assign_self c.responses id _)
          (omega (arith, length-set rs i r, length-map stored ps, same))
          (get_elem?-set_self rs i r in_set) (omega (arith, in_set, length-map stored ps, same))
          is_final.0
        ∙ ap (λ l. (ok tt, record c₁ { responses = assign c₁.responses id l })) next in
      let kept = transfers-set ps i s h.0 in
      let (m, e, f) =
        serve_lem ends ps' id t c₂ tracked (find-assign_self c₁.responses id _)
          (length-set ps i (true, s) ∙ same) (subst (λ l. AllFinal l) (sym kept) final) h.1 in
      (
        m,
        then_lem (write_response id i s.headers s.chunks) _ c c₁ write
            ∙ then_lem (consume_msg id (record { done = true; index = some i; status = s.status }))
                _ c₁ c₂ consume
            ∙ e,
        f ∙ ap (λ l. some (answers l)) kept,
      )
