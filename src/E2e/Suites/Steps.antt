-- ===== src/E2e/Suites/Steps.antt =====
-- The steps that the tests share: `createJob`, `cancelJob`, `getStats`, and their loops.
use job_queue_event_processi.Prelude.{
  ℕ, zero, suc, ◌==◌, String, Bool, if◌then◌else◌, List, [], ◌∷◌, arith,
}
use job_queue_event_processi.Js.Value.{Value, str, is_str}
use job_queue_event_processi.Js.Outcome.{done, Script, ◌>>=◌, return, lift}
use job_queue_event_processi.Js.Env.{Env, Request, stats, Delivery}
use job_queue_event_processi.Js.Http.{
  object, get_from, post_job, post_cancel, settled, wait, read_prop, IsPlain, plain, if-IsPlain,
  bind-IsPlain, return-IsPlain, throw-IsPlain, prop-IsPlain, settled-IsPlain,
}
use job_queue_event_processi.Js.Compare.{in_object}
use job_queue_event_processi.E2e.Polling.{
  Response, body_of, http, get_job, http-IsPlain, get_job-IsPlain,
}
use job_queue_event_processi.E2e.Totals.{assert}

abbrev pub typed : (type payload : String) → Value
typed type payload = object (("type", str type) ∷ ("payload", str payload) ∷ [])

abbrev pub timed : (type payload time : String) → Value
timed type payload time =
    object (("type", str type) ∷ ("payload", str payload) ∷ ("time", str time) ∷ [])

module _ (env : Env) where
  open env use {World, template, parse, local_in, fetch_all}

  unfoldable pub create_job : Value → Script World Response
  create_job payload = http env (post_job payload)

  unfoldable pub cancel_job : Value → Script World Response
  cancel_job id = http env (post_cancel id)

  unfoldable pub get_stats : Script World Response
  get_stats = http env (get_from stats)

  abbrev pub local_time : (minutes : ℕ) → Script World String
  local_time minutes w = (done (local_in minutes w), w)

  abbrev pub expect_200 : Response → Script World (Unit {0})
  expect_200 res = assert env (res.status == 200) "Expected 200"

  -- `Promise.all` of calls of `createJob`, which rejects where one of them does.
  unfoldable pub responses : List Delivery → Script World (List Response)
  responses [] = return []
  responses (d ∷ ds) = do
    res ← lift (settled d.fetched)
    rest ← responses ds
    return (record { status = res.status; body = body_of res.text (parse res.text) } ∷ rest)

  unfoldable pub create_burst : (make : ℕ → Value) → (i n : ℕ) → List Request
  create_burst make i zero = []
  create_burst make i (suc n) = post_job (make i) ∷ create_burst make (suc i) n

  unfoldable pub create_together : (make : ℕ → Value) → (n : ℕ) → Script World (List Response)
  create_together make n w = let all = fetch_all (create_burst make 0 n) w in responses all.0 all.1

  -- How many of some jobs are in a status.
  unfoldable pub count_in : (status : String) → List Value → Script World ℕ
  count_in status [] = return 0
  count_in status (id ∷ ids) = do
    res ← get_job env id
    seen ← read_prop env res.body "status"
    n ← count_in status ids
    return (if is_str seen status then suc n else n)

  pub create_job-IsPlain : (v : Value) → IsPlain env (create_job v)
  unfolding create_job
  create_job-IsPlain v = http-IsPlain env (post_job v)

  pub cancel_job-IsPlain : (id : Value) → IsPlain env (cancel_job id)
  unfolding cancel_job
  cancel_job-IsPlain id = http-IsPlain env (post_cancel id)

  pub get_stats-IsPlain : IsPlain env get_stats
  unfolding get_stats
  get_stats-IsPlain = http-IsPlain env (get_from stats)

  pub local_time-IsPlain : (minutes : ℕ) → IsPlain env (local_time minutes)
  local_time-IsPlain minutes = record { answer = λ w. tt; later = λ w. omega arith }

  pub assert-IsPlain : (b : Bool) (e : String) → IsPlain env (assert env b e)
  unfolding assert
  assert-IsPlain b e = if-IsPlain env b _ _ (return-IsPlain env tt) (throw-IsPlain env e)

  responses-IsPlain : (ds : List Delivery) → IsPlain env (responses ds)
  unfolding responses
  responses-IsPlain [] = return-IsPlain env []
  responses-IsPlain (d ∷ ds) =
      bind-IsPlain env _ _ (settled-IsPlain env d.fetched)
        (λ res. bind-IsPlain env _ _ (responses-IsPlain ds) (λ rest. return-IsPlain env _))

  pub create_together-IsPlain : (make : ℕ → Value) (n : ℕ) → IsPlain env (create_together make n)
  unfolding create_together
  create_together-IsPlain make n =
      let burst = create_burst make 0 n in
      let h = λ (w : World). responses-IsPlain (fetch_all burst w).0 in
      record {
        answer = λ w. (h w).answer (fetch_all burst w).1;
        later = λ w. omega (arith, env.fetch_all_later burst w, (h w).later (fetch_all burst w).1);
      }

  pub count_in-IsPlain : (status : String) (ids : List Value) → IsPlain env (count_in status ids)
  unfolding count_in
  count_in-IsPlain status [] = return-IsPlain env 0
  count_in-IsPlain status (id ∷ ids) = bind-IsPlain env _ _ (get_job-IsPlain env id) (λ res.
      bind-IsPlain env _ _ (prop-IsPlain env res.body "status")
        (λ seen. bind-IsPlain env _ _ (count_in-IsPlain status ids) (λ n. return-IsPlain env _)))

  pub in_object-IsPlain : (k : String) (v : Value) → IsPlain env (lift (in_object k v))
  unfolding in_object
  in_object-IsPlain k v = record { answer = λ w. ground arith; later = λ w. omega arith }

-- The rules for the steps of a test.
pub ruleset steps = (
  plain, create_job-IsPlain, cancel_job-IsPlain, get_stats-IsPlain, local_time-IsPlain,
  assert-IsPlain, create_together-IsPlain, count_in-IsPlain, in_object-IsPlain,
)
