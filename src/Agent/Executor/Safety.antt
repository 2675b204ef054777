-- ===== src/Agent/Executor/Safety.antt =====
-- What an execution may change.
use job_queue_event_processi.Prelude.{
  ◌≡◌, ◌≢◌, ◌∙◌, ◌⊎◌, inl, inr, refl, sym, ap, subst, Bool, true, false, not, ◌||◌, Bool-cases,
  none, some, [], arith,
}
use job_queue_event_processi.Healer.Text.{Text}
use job_queue_event_processi.Agent.Models.{Settings, PlannedAction, ExecutionResult, same_text}
use job_queue_event_processi.Agent.Rules.{verify, recover_path, reconcile_path}
use job_queue_event_processi.Agent.Client.{Service, post, recover_watcher, reconcile_redis}
use job_queue_event_processi.Agent.Planner.{get_or}
use job_queue_event_processi.Agent.Executor.{
  is_watched, has_path, is_executed, concluded, dispatch, execute,
}

-- A plan whose endpoint is what the policy says of its action.
abbrev pub IsPolicy : PlannedAction → Type 0
IsPolicy plan =
    (plan.endpoint ≡ none)
    ⊎ ((plan.endpoint ≡ some recover_path) ⊎ (plan.endpoint ≡ some reconcile_path))

module _ {S : Type 0} (service : Service S) (settings : Settings) (trouble : Text) where
  -- The back end is as it was, or the plan was allowed and one of the two recoveries was requested.
  pub data Step (plan : PlannedAction) (s : S) : S → Type 0 where
    kept : Step plan s s
    acted :
        (path : Text)
        → (path ≡ recover_path) ⊎ (path ≡ reconcile_path)
        → settings.dry_run ≡ false
        → plan.auto_execute ≡ true
        → Step plan s (post service path s).1

  -- The plan is not carried out.
  abbrev pub is_idle : PlannedAction → Bool
  is_idle plan =
      settings.dry_run
      || (same_text plan.action verify || (is_watched plan.action || not (is_executed plan)))

  pub execute-idle :
      (plan : PlannedAction) (s : S)
      → is_idle plan ≡ true
      → (execute service settings trouble plan s).1 ≡ s
  unfolding execute
  execute-idle plan s h = elim (Bool-cases settings.dry_run) [
    | inl dry ↦ rw (execute, dry) refl
    | inr wet ↦ elim (Bool-cases (same_text plan.action verify)) [
      | inl checked ↦ rw (execute, wet, checked) refl
      | inr acting ↦ elim (Bool-cases (is_watched plan.action)) [
        | inl watched ↦ rw (execute, wet, acting, watched) refl
        | inr mutating ↦
            let idle : not (is_executed plan) ≡ true = ground arith in
            rw (execute, wet, acting, mutating, idle) refl
      ]
    ]
  ]

  pub execute-dispatch :
      (plan : PlannedAction) (s : S)
      → is_idle plan ≡ false
      → let r = dispatch service settings trouble plan (get_or [] plan.endpoint) s in
        execute service settings trouble plan s
        ≡ (some (concluded service settings trouble plan r.0), r.1)
  unfolding execute
  execute-dispatch plan s h =
      let wet : settings.dry_run ≡ false = ground arith in
      let acting : same_text plan.action verify ≡ false = ground arith in
      let mutating : is_watched plan.action ≡ false = ground arith in
      let busy : not (is_executed plan) ≡ false = ground arith in
      rw (execute, wet, acting, mutating, busy) refl

  dispatch-recover :
      (plan : PlannedAction) (s : S)
      → dispatch service settings trouble plan recover_path s ≡ post service recover_path s
  unfolding dispatch recover_watcher same_text
  dispatch-recover plan s = refl

  dispatch-reconcile :
      (plan : PlannedAction) (s : S)
      → dispatch service settings trouble plan reconcile_path s ≡ post service reconcile_path s
  unfolding dispatch reconcile_redis same_text
  dispatch-reconcile plan s = refl

  -- What is requested where a plan is carried out.
  pub execute-path :
      (plan : PlannedAction) (s : S) (path : Text)
      → is_idle plan ≡ false
      → plan.endpoint ≡ some path
      → (path ≡ recover_path) ⊎ (path ≡ reconcile_path)
      → (execute service settings trouble plan s).1 ≡ (post service path s).1
  execute-path plan s path h e either =
      ap (λ r. r.1) (execute-dispatch plan s h)
      ∙ ap (λ p. (dispatch service settings trouble plan (get_or [] p) s).1) e
      ∙ (elim either [
        | inl at_recover ↦ rw at_recover (ap (λ r. r.1) (dispatch-recover plan s))
        | inr at_reconcile ↦ rw at_reconcile (ap (λ r. r.1) (dispatch-reconcile plan s))
      ])

  busy-auto_execute : (plan : PlannedAction) → is_idle plan ≡ false → plan.auto_execute ≡ true
  busy-auto_execute plan h = ground arith

  busy-dry_run : (plan : PlannedAction) → is_idle plan ≡ false → settings.dry_run ≡ false
  busy-dry_run plan h = ground arith

  busy-endpoint : (plan : PlannedAction) → is_idle plan ≡ false → plan.endpoint ≢ none
  busy-endpoint plan h e =
      let no_path : has_path plan.endpoint ≡ false = ap has_path e in
      let idle : not (is_executed plan) ≡ true = ground arith in absurd (ground arith)

  pub execute-Step :
      (plan : PlannedAction) (s : S)
      → IsPolicy plan
      → Step plan s (execute service settings trouble plan s).1
  execute-Step plan s policy = elim (Bool-cases (is_idle plan)) [
    | inl idle ↦ subst (Step plan s) (sym (execute-idle plan s idle)) kept
    | inr busy ↦ elim policy [
      | inl nowhere ↦ absurd (busy-endpoint plan busy nowhere)
      | inr (inl e) ↦
          subst (Step plan s) (sym (execute-path plan s recover_path busy e (inl refl)))
            (acted recover_path (inl refl) (busy-dry_run plan busy) (busy-auto_execute plan busy))
      | inr (inr e) ↦
          subst (Step plan s) (sym (execute-path plan s reconcile_path busy e (inr refl)))
            (acted reconcile_path (inr refl) (busy-dry_run plan busy) (busy-auto_execute plan busy))
    ]
  ]

  -- An execution that raises an error has changed nothing.
  pub execute-raised :
      (plan : PlannedAction) (s : S)
      → (execute service settings trouble plan s).0 ≡ none
      → (execute service settings trouble plan s).1 ≡ s
  execute-raised plan s h = elim (Bool-cases (is_idle plan)) [
    | inl idle ↦ execute-idle plan s idle
    | inr busy ↦ absurd (no_result _ (sym (ap (λ r. r.0) (execute-dispatch plan s busy)) ∙ h))
  ]
    where
      no_result : (result : ExecutionResult) → some result ≢ none
      no_result result e = ground (arith, e)
