-- ===== src/Config/Replica/Laws.antt =====
-- A replica that is reported as converged was read, and what was read does not differ from what is
-- desired.
use proxysql_on_k8s.Base.{
  ℕ, ◌≡◌, ◌≢◌, ◌⊎◌, inl, inr, refl, sym, ap, ◌∙◌, subst, true, false, List, [], ◌∷◌, Option, none,
  some, text_eq,
}
use proxysql_on_k8s.Base.Calls.{
  Action, Reader, Result, ok, failed, ◌>>=◌, attempt, wrapped, give_result,
}
use proxysql_on_k8s.Base.Calls.Returns.{
  bind_values, wrapped-ok, attempt-ok, >>-cases, answer_cases, pair_cases, error-ne-none,
}
use proxysql_on_k8s.Base.Int.{ℤ}
use proxysql_on_k8s.Base.Text.{Text, codes}
use proxysql_on_k8s.Client.Drift.{drift}
use proxysql_on_k8s.Client.Runtime.{RuntimeState, read_runtime, shunned_count}
use proxysql_on_k8s.Client.Sync.{sync_with_aws_db_proxy}
use proxysql_on_k8s.Client.Types.{Desired}
use proxysql_on_k8s.Discovery.{PodEndpoint}
use proxysql_on_k8s.Config.Replica.{
  Replicas, RdsReconcileState, ReplicaObservation, ApplyCycleStep, executor_at, is_some,
  apply_native, with_described, unless_drift, read_native, querier_at, native_view, check_rds,
  check_runtime, observed_as, observe_snapshot, observe_replica, run_apply_cycle, apply_steps,
  after_cycle, apply_replica, failed_replica,
}

unless_drift_ok :
    (reason : Text) (diffs : List Text) → unless_drift reason diffs ≡ ok tt → diffs ≡ []
unfolding unless_drift
unless_drift_ok reason [] h = refl
unless_drift_ok reason (d ∷ diffs) h = absurd cc

-- What follows a step by its answer,
abbrev after_step : {S : Type 0} → Text → List (ApplyCycleStep S) → S × Option Text → S × Text
after_step reason steps r = elim r.1 [ none ↦ run_apply_cycle steps r.0 | some e ↦ (r.0, reason) ]

-- and what is done with a description.
abbrev on_described : {S A : Type 0} → (A → Action S) → S × Result A → S × Option Text
on_described f r = elim r.1 [ ok a ↦ f a r.0 | failed e ↦ (r.0, some e) ]

cycle_end : {S : Type 0} (s s' : S) → run_apply_cycle [] s ≡ (s', []) → s ≡ s'
unfolding run_apply_cycle
cycle_end s s' h = ap (λ p. p.0) h

-- A cycle without a reason ran its first step, which has one, and the rest.
run_apply_cycle-cons :
    {S : Type 0} (step : ApplyCycleStep S) (steps : List (ApplyCycleStep S)) (s s' : S)
    → step.reason ≢ []
    → run_apply_cycle (step ∷ steps) s ≡ (s', [])
    → (s₁ : S) × (step.run s ≡ (s₁, none)) × (run_apply_cycle steps s₁ ≡ (s', []))
unfolding run_apply_cycle
run_apply_cycle-cons step steps s s' named h = elim (answer_cases (step.run s)) [
  | inl (s₁, p) ↦ (s₁, p, sym (ap (after_step step.reason steps) p) ∙ h)
  | inr (s₁, e, p) ↦ absurd (named (ap (λ r. r.1) (sym (ap (after_step step.reason steps) p) ∙ h)))
]

module _ (R : Replicas) (native : Desired)
    (rds_state : Option (RdsReconcileState R.State R.Observed)) (version : ℤ)
    (ep : PodEndpoint) where
  -- Beside a plugin, the replica's client was had, and the description read next does not differ.
  abbrev pub RdsAgrees : Option (RdsReconcileState R.State R.Observed) → R.State → R.State → Type 0
  RdsAgrees none s s' = s ≡ s'
  RdsAgrees (some rds) s s' =
      (s₁ : R.State) × (observed : R.Observed) × (rds.client ep s ≡ (s₁, none))
      × (rds.describe ep s₁ ≡ (s', ok observed))
      × (rds.drift observed ≡ [])

  -- After the clock the replica was dialled at its address, what it runs was read, and that does not
  -- differ from what is desired, nor does the plugin's part.
  abbrev pub Agrees : R.State → R.State → Type 0
  Agrees s s' =
      (s₁ : R.State) × (s₂ : R.State) × (rs : RuntimeState) × (R.dial ep.addr (R.now s).0
        ≡ (s₁, none))
      × (read_runtime (querier_at R native rds_state version ep.addr) s₁ ≡ (s₂, ok rs))
      × (drift native (native_view R native rds_state version rds_state rs) ≡ [])
      × RdsAgrees rds_state s₂ s'

  -- The replica was dialled and took the whole push.
  abbrev pub TookPush : R.State → R.State → Type 0
  TookPush s s' =
      (s₁ : R.State) × (R.dial ep.addr s ≡ (s₁, none))
      × (sync_with_aws_db_proxy (executor_at R native rds_state version ep.addr) native
            (is_some R native rds_state version rds_state) s₁
          ≡ (s', none))

  -- A client was had, a description was read, and what is done with it did not fail.
  abbrev pub Described :
      (rds : RdsReconcileState R.State R.Observed)
      → (R.Observed → Action R.State)
      → R.State
      → R.State
      → Type 0
  Described rds f s s' =
      (s₁ : R.State) × (s₂ : R.State) × (current : R.Observed) × (rds.client ep s ≡ (s₁, none))
      × (rds.describe ep s₁ ≡ (s₂, ok current))
      × (f current s₂ ≡ (s', none))

  -- The push of a replica: beside a plugin, between the clearing and the setting of its state.
  abbrev pub IsPushed : Option (RdsReconcileState R.State R.Observed) → R.State → R.State → Type 0
  IsPushed none s s' = TookPush s s'
  IsPushed (some rds) s s' =
      (s₁ : R.State) × (s₂ : R.State) × Described rds (rds.clear_mutable ep) s s₁
      × TookPush s₁ s₂
      × Described rds (rds.apply ep) s₂ s'

  -- A report of convergence for a reason, or else of a replica that is to be pushed.
  abbrev pub Reports : ReplicaObservation → Type 0 → Type 0
  Reports o Reason =
      ((o.status.converged ≡ true)
        × (o.drifted ≡ false)
        × (o.status.reason ≡ codes "Converged")
        × Reason)
      ⊎ ((o.status.converged ≡ false) × (o.drifted ≡ true))

  -- An observation reports convergence of a replica that agrees,
  abbrev pub IsHonest : R.State → R.State → ReplicaObservation → Type 0
  IsHonest s s' o = Reports o (Agrees s s')

  -- and after a push, of one that took the push and agrees after it.
  abbrev pub IsHonestPush : R.State → R.State → ReplicaObservation → Type 0
  IsHonestPush s s' o = Reports o ((s₁ : R.State) × IsPushed rds_state s s₁ × Agrees s₁ s')

  given_ok :
      (r : Result Unit) (s s' : R.State) (u : Unit)
      → give_result r s ≡ (s', ok u)
      → (s ≡ s') × (r ≡ ok tt)
  given_ok r s s' u h = (ap (λ p. p.0) h, ap (λ p. p.1) h)

  check_rds_ok :
      (rds : Option (RdsReconcileState R.State R.Observed)) (s s' : R.State)
      → check_rds R native rds_state version rds ep s ≡ (s', ok tt)
      → RdsAgrees rds s s'
  unfolding check_rds
  check_rds_ok none s s' h = ap (λ p. p.0) h
  check_rds_ok (some rds) s s' h =
      let compare : R.Observed → Reader R.State Unit =
        λ observed. give_result (unless_drift (codes "RDSDrift") (rds.drift observed)) in
      let (s₁, connected, had, on) =
        bind_values (attempt (λ e. codes "RDSClientUnavailable") (rds.client ep))
          (λ connected. wrapped (λ e. codes "RDSReadFailed") (rds.describe ep) >>= compare) s s' tt
          h in
      let (s₂, observed, described, compared) =
        bind_values (wrapped (λ e. codes "RDSReadFailed") (rds.describe ep)) compare s₁ s' tt on in
      let (same, agrees) = given_ok _ s₂ s' tt compared in
      (
        s₁,
        observed,
        attempt-ok _ (rds.client ep) s s₁ connected had,
        wrapped-ok _ (rds.describe ep) s₁ s₂ observed described ∙ ap (λ u. (u, ok observed)) same,
        unless_drift_ok (codes "RDSDrift") (rds.drift observed) agrees,
      )

  check_runtime_ok :
      (rs : RuntimeState) (s s' : R.State)
      → check_runtime R native rds_state version ep rs s ≡ (s', ok tt)
      → (drift native (native_view R native rds_state version rds_state rs) ≡ [])
        × RdsAgrees rds_state s s'
  unfolding check_runtime
  check_runtime_ok rs s s' h =
      let diffs = drift native (native_view R native rds_state version rds_state rs) in
      let (s₁, u, compared, on) =
        bind_values (give_result (unless_drift (codes "NativeDrift") diffs))
          (λ u. check_rds R native rds_state version rds_state ep) s s' tt h in
      let (same, agrees) = given_ok (unless_drift (codes "NativeDrift") diffs) s s₁ u compared in
      (
        unless_drift_ok (codes "NativeDrift") diffs agrees,
        check_rds_ok rds_state s s'
            (ap (check_rds R native rds_state version rds_state ep) same ∙ on),
      )

  read_native_ok :
      (s s' : R.State) (rs : RuntimeState)
      → read_native R native rds_state version ep s ≡ (s', ok rs)
      → (s₁ : R.State) × (R.dial ep.addr s ≡ (s₁, none))
        × (read_runtime (querier_at R native rds_state version ep.addr) s₁ ≡ (s', ok rs))
  unfolding read_native
  read_native_ok s s' rs h =
      let read : Reader R.State RuntimeState =
        read_runtime (querier_at R native rds_state version ep.addr) in
      let (s₁, u, dialled, on) =
        bind_values (attempt (λ e. codes "AdminUnavailable") (R.dial ep.addr))
          (λ u. wrapped (λ e. codes "NativeReadFailed") read) s s' rs h in
      (s₁, attempt-ok _ (R.dial ep.addr) s s₁ u dialled, wrapped-ok _ read s₁ s' rs on)

  observed_as-Reports :
      (t shunned : ℕ) (checked : Result Unit) (Reason : Type 0)
      → (checked ≡ ok tt → Reason)
      → Reports (observed_as R native rds_state version ep t shunned checked) Reason
  unfolding observed_as
  observed_as-Reports t shunned (ok u) Reason h = inl (refl, refl, refl, h refl)
  observed_as-Reports t shunned (failed reason) Reason h = inr (refl, refl)

  observe_snapshot-IsHonest :
      (t : ℕ) (r : Result RuntimeState) (s s₂ : R.State)
      → read_native R native rds_state version ep (R.now s).0 ≡ (s₂, r)
      → IsHonest s
          (observe_snapshot R native rds_state version ep t r s₂).0
          (observe_snapshot R native rds_state version ep t r s₂).1
  unfolding observe_snapshot
  observe_snapshot-IsHonest t (failed reason) s s₂ h = inr (refl, refl)
  observe_snapshot-IsHonest t (ok rs) s s₂ h =
      let (s', checked) = check_runtime R native rds_state version ep rs s₂ in
      let (s₁, dialled, read) = read_native_ok (R.now s).0 s₂ rs h in
      observed_as-Reports t (shunned_count rs) checked (Agrees s s') λ passed.
        let (agrees, rds_agrees) = check_runtime_ok rs s₂ s' (ap (λ c. (s', c)) passed) in
        (s₁, s₂, rs, dialled, read, agrees, rds_agrees)

  pub observe_replica-IsHonest :
      (s : R.State)
      → IsHonest s
          (observe_replica R native rds_state version ep s).0
          (observe_replica R native rds_state version ep s).1
  unfolding observe_replica
  observe_replica-IsHonest s =
      let (s₁, t) = R.now s in
      let (s₂, r) = read_native R native rds_state version ep s₁ in
      observe_snapshot-IsHonest t r s s₂ refl

  apply_native_ok :
      (s s' : R.State) → apply_native R native rds_state version ep s ≡ (s', none) → TookPush s s'
  unfolding apply_native
  apply_native_ok s s' h =
      >>-cases (R.dial ep.addr)
        (sync_with_aws_db_proxy (executor_at R native rds_state version ep.addr) native
          (is_some R native rds_state version rds_state))
        s s' h

  with_described_ok :
      (rds : RdsReconcileState R.State R.Observed) (f : R.Observed → Action R.State)
      (s s' : R.State)
      → with_described R native rds_state version rds ep f s ≡ (s', none)
      → Described rds f s s'
  unfolding with_described
  with_described_ok rds f s s' h =
      let (s₁, had, on) =
        >>-cases (rds.client ep) (λ s. on_described f (rds.describe ep s)) s s' h in
      elim (pair_cases (rds.describe ep s₁)) [
        | inl (s₂, current, p) ↦ (s₁, s₂, current, had, p, sym (ap (on_described f) p) ∙ on)
        | inr (s₂, e, p) ↦ absurd (error-ne-none s₂ s' e (sym (ap (on_described f) p) ∙ on))
      ]

  run_apply_cycle-IsPushed :
      (rds : Option (RdsReconcileState R.State R.Observed)) (s s' : R.State)
      → run_apply_cycle (apply_steps R native rds_state version rds ep) s ≡ (s', [])
      → IsPushed rds s s'
  unfolding apply_steps
  run_apply_cycle-IsPushed none s s' h =
      let (s₁, ran, rest) = run_apply_cycle-cons _ [] s s' (λ e. absurd cc) h in
      apply_native_ok s s' (ran ∙ ap (λ u. (u, none)) (cycle_end s₁ s' rest))
  run_apply_cycle-IsPushed (some rds) s s' h =
      let (s₁, cleared, on) = run_apply_cycle-cons _ _ s s' (λ e. absurd cc) h in
      let (s₂, pushed, rest) = run_apply_cycle-cons _ _ s₁ s' (λ e. absurd cc) on in
      let (s₃, applied, end) = run_apply_cycle-cons _ [] s₂ s' (λ e. absurd cc) rest in
      (
        s₁,
        s₂,
        with_described_ok rds (rds.clear_mutable ep) s s₁ cleared,
        apply_native_ok s₁ s₂ pushed,
        with_described_ok rds (rds.apply ep) s₂ s'
            (applied ∙ ap (λ u. (u, none)) (cycle_end s₃ s' end)),
      )

  after_cycle-IsHonestPush :
      (reason : Text) (s s₁ : R.State)
      → (reason ≡ [] → IsPushed rds_state s s₁)
      → IsHonestPush s
          (after_cycle R native rds_state version ep reason s₁).0
          (after_cycle R native rds_state version ep reason s₁).1
  unfolding after_cycle failed_replica
  after_cycle-IsHonestPush [] s s₁ h = elim (observe_replica-IsHonest s₁) [
    | inl (converged, drifted, reason, agrees) ↦
        inl (converged, drifted, reason, (s₁, h refl, agrees))
    | inr to_push ↦ inr to_push
  ]
  after_cycle-IsHonestPush (c ∷ reason) s s₁ h = inr (refl, refl)

  -- A replica is reported as converged after a push only when it took the whole push, from the state
  -- that the push found, and then, after the push, was dialled at its address, was read, and does not
  -- differ from what is desired; every other replica is reported for the next push.
  pub apply_replica-IsHonest :
      (s s' : R.State) (o : ReplicaObservation)
      → apply_replica R native rds_state version ep s ≡ (s', o)
      → IsHonestPush s s' o
  unfolding apply_replica
  apply_replica-IsHonest s s' o h =
      let (s₁, reason) = run_apply_cycle (apply_steps R native rds_state version rds_state ep) s in
      subst (λ p. IsHonestPush s p.0 p.1) h
        (after_cycle-IsHonestPush reason s s₁
          λ no_reason. run_apply_cycle-IsPushed rds_state s s₁ (ap (λ r. (s₁, r)) no_reason))
