-- ===== src/Queue/Api/Keys.antt =====
-- Requests to the administrator's interface with a wrong key.
use text.Mathlib.TextEquality.{eq_iff}
use job_queue_event_processi.Prelude.{
  ℕ, ◌≡◌, ◌⊎◌, inl, inr, refl, str_eq, String, Bool, true, Bool-cases, some, List, [], ◌∷◌, arith,
}
use job_queue_event_processi.Queue.State.{Backend}
use job_queue_event_processi.Queue.Admin.{ActionResult}
use job_queue_event_processi.Queue.Api.{
  Response, answer, failure, response_status, handle, Operation, authorize, administer,
}

-- The answer to a request that fails with a status.
abbrev pub HasStatus : ℕ → Response ActionResult → Type 0
HasStatus n (answer a) = ⊥
HasStatus n (failure e) = e.status ≡ n

module _ (is_blank : String → Bool) (api_key : String) where
  -- The key of a request that must not be served.
  abbrev pub IsWrong : String → Type 0
  IsWrong key = (is_blank api_key ≡ true) ⊎ ¬ (api_key ≡ key)

  abbrev pub AreWrong : List (String × Operation) → Type 0
  AreWrong [] = Unit {0}
  AreWrong ((key, op) ∷ rs) = IsWrong key × AreWrong rs

  -- Requests one after the other, with their answers.
  pub administer_all : List (String × Operation) → Backend → List (Response ActionResult) × Backend
  administer_all [] s = ([], s)
  administer_all ((key, op) ∷ rs) s =
      let r = administer is_blank api_key key op s in
      let rest = administer_all rs r.1 in (r.0 ∷ rest.0, rest.1)

  abbrev pub AreRefused : List (Response ActionResult) → Type 0
  AreRefused [] = Unit {0}
  AreRefused (a ∷ rest) = HasStatus 500 a × AreRefused rest

  authorize-wrong :
      (key : String)
      → IsWrong key
      → authorize is_blank api_key key ≡ some (response_status 401 "Invalid admin API key")
  unfolding authorize
  authorize-wrong key (inl blank) = rw blank refl
  authorize-wrong key (inr other) = elim (Bool-cases (str_eq api_key key)) [
    | inl same ↦ absurd (other ((eq_iff api_key key).0 same))
    | inr differs ↦ rw differs (ground arith)
  ]

  pub administer-wrong :
      (key : String) (op : Operation) (s : Backend)
      → IsWrong key
      → let r = administer is_blank api_key key op s in HasStatus 500 r.0 × (r.1 ≡ s)
  unfolding administer handle
  administer-wrong key op s h = rw (administer, authorize-wrong key h) (refl, refl)

  -- Requests whose key is wrong, or that come while the configured key is blank, leave the state as
  -- it is. Each is answered with status 500: the handler for every exception takes the 401 that the
  -- check of the key throws.
  pub wrong_keys_refused :
      (rs : List (String × Operation)) (s : Backend)
      → AreWrong rs
      → let r = administer_all rs s in AreRefused r.0 × (r.1 ≡ s)
  unfolding administer_all
  wrong_keys_refused [] s h = (tt, refl)
  wrong_keys_refused ((key, op) ∷ rs) s (h, hs) =
      let (refused, same) = administer-wrong key op s h in
      let rest = wrong_keys_refused rs s hs in rw same ((refused, rest.0), rest.1)
