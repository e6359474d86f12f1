-- ===== src/Config/Reconcile/Laws.antt =====
-- The recorded digest stands for what the replicas run.
use proxysql_on_k8s.Base.{
  ℕ, ◌≡◌, ◌⊎◌, inl, inr, refl, ap, ◌∙◌, subst, Bool, true, false, List, [], ◌∷◌, Option, none, some,
  map, All, In, keep, not, Bool-cases, eqb, length, text_eq, arith, if◌then◌else◌,
}
use proxysql_on_k8s.Base.Calls.{Action, Result}
use proxysql_on_k8s.Base.Dict.{Dict, lookup, insert}
use proxysql_on_k8s.Base.Dict.Laws.{lookup-insert}
use proxysql_on_k8s.Base.Text.{Text}
use proxysql_on_k8s.Client.Types.{Desired}
use proxysql_on_k8s.Config.Replica.{
  Replicas, RdsReconcileState, ReplicaObservation, Summary, observe_replica, apply_replica,
  summarize_replicas,
}
use proxysql_on_k8s.Config.Replica.Laws.{
  Agrees, IsPushed, observe_replica-IsHonest, apply_replica-IsHonest,
}
use proxysql_on_k8s.Config.Reconcile.{
  ConfigStatus, Reconciling, observation_of, or_no_observation, sync_errs, update_and_requeue,
  observe_each, apply_each, observe_all, is_candidate, only_observed, all_synced, finish,
  synced_status, partial_status, conclude_push, push_to, after_observations, resync, proceed,
  reconcile_ready_replicas,
}
use proxysql_on_k8s.Discovery.{PodEndpoint}

-- What a map holds after an insertion.
module _ {V : Type 0} where
  lookup-insert_cases :
      (j k : Text) (v w : V) (m : Dict Text V)
      → lookup j (insert k v m) ≡ some w
      → ((k ≡ j) × (v ≡ w)) ⊎ (lookup j m ≡ some w)
  lookup-insert_cases j k v w m h = ground (arith, lookup-insert j k v m, h)

-- What a missing entry reads as did not converge.
converged_cases :
    (found : Option ReplicaObservation)
    → (or_no_observation found).status.converged ≡ true
    → (o : ReplicaObservation) × (found ≡ some o) × (o.status.converged ≡ true)
converged_cases none h = absurd cc
converged_cases (some o) h = (o, refl, h)

-- Nothing was noted, since the test holds.
noted_nil :
    (b : Bool) (e : Text) (rest : List Text)
    → (if b then rest else e ∷ rest) ≡ []
    → (b ≡ true) × (rest ≡ [])
noted_nil true e rest h = (refl, h)
noted_nil false e rest h = absurd cc

-- The members of a list that passes some of another are members of that one.
keep-In :
    {A : Type 0} (p : A → Bool) (xs ys : List A)
    → All (λ a. In a xs) ys
    → All (λ a. In a xs) (keep p ys)
keep-In p xs [] h = tt
keep-In p xs (y ∷ ys) h = ground (arith, keep-In p xs ys h.1, h.0)

every-In : {A : Type 0} (xs ys : List A) → ((a : A) → In a ys → In a xs) → All (λ a. In a xs) ys
every-In xs [] h = tt
every-In xs (y ∷ ys) h = (h y (inl refl), every-In xs ys (λ a i. h a (inr i)))

module _ (R : Replicas) (native : Desired)
    (rds_state : Option (RdsReconcileState R.State R.Observed))
    (update_status : ConfigStatus → Action R.State) (c : Reconciling) where
  -- The states that this reconcile passes through: the clock is read, and replicas of the list are
  -- observed and pushed.
  pub data Reaches (s : R.State) : R.State → Type 0 where
    here : Reaches s s
    clock : (s₁ : R.State) → Reaches s s₁ → Reaches s (R.now s₁).0
    observed :
        (s₁ : R.State) (ep : PodEndpoint)
        → In ep c.endpoints
        → Reaches s s₁
        → Reaches s (observe_replica R native rds_state c.version ep s₁).0
    pushed :
        (s₁ : R.State) (ep : PodEndpoint)
        → In ep c.endpoints
        → Reaches s s₁
        → Reaches s (apply_replica R native rds_state c.version ep s₁).0

  -- The replica of that name in the list was, in a state of this reconcile, observed or pushed and
  -- then observed, and does not differ from what is desired.
  abbrev pub IsAgreed : R.State → Text → Type 0
  IsAgreed s pod =
      (ep : PodEndpoint) × (In ep c.endpoints)
      × (ep.pod ≡ pod)
      × (s₁ : R.State) × (s₂ : R.State) × Reaches s s₁
      × (Agrees R native rds_state c.version ep s₁ s₂
          ⊎ ((s' : R.State) × IsPushed R native rds_state c.version ep rds_state s₁ s'
              × Agrees R native rds_state c.version ep s' s₂))

  abbrev AllHonest : R.State → Dict Text ReplicaObservation → Type 0
  AllHonest s results =
      (pod : Text) (o : ReplicaObservation)
      → lookup pod results ≡ some o
      → o.status.converged ≡ true
      → IsAgreed s pod

  observed-IsAgreed :
      (s s₁ : R.State) (ep : PodEndpoint)
      → In ep c.endpoints
      → Reaches s s₁
      → (observe_replica R native rds_state c.version ep s₁).1.status.converged ≡ true
      → IsAgreed s ep.pod
  observed-IsAgreed s s₁ ep i reached h =
      elim (observe_replica-IsHonest R native rds_state c.version ep s₁) [
        | inl (_, _, _, agrees) ↦ (ep, i, refl, s₁, _, reached, inl agrees)
        | inr (not_converged, _) ↦ absurd cc
      ]

  pushed-IsAgreed :
      (s s₁ : R.State) (ep : PodEndpoint)
      → In ep c.endpoints
      → Reaches s s₁
      → (apply_replica R native rds_state c.version ep s₁).1.status.converged ≡ true
      → IsAgreed s ep.pod
  pushed-IsAgreed s s₁ ep i reached h =
      elim (apply_replica-IsHonest R native rds_state c.version ep s₁ _ _ refl) [
        | inl (_, _, _, took) ↦ (ep, i, refl, s₁, _, reached, inr took)
        | inr (not_converged, _) ↦ absurd cc
      ]

  insert-AllHonest :
      (s : R.State) (ep : PodEndpoint) (o : ReplicaObservation)
      (results : Dict Text ReplicaObservation)
      → (o.status.converged ≡ true → IsAgreed s ep.pod)
      → AllHonest s results
      → AllHonest s (insert ep.pod o results)
  insert-AllHonest s ep o results h all pod found l =
      elim (lookup-insert_cases pod ep.pod o found results l) [
        | inl (same_pod, same) ↦ λ converged.
            subst (IsAgreed s) same_pod (h (ap (λ u. u.status.converged) same ∙ converged))
        | inr before ↦ all pod found before
      ]

  observe_each-AllHonest :
      (s : R.State) (eps : List PodEndpoint) (results : Dict Text ReplicaObservation) (s₁ : R.State)
      → All (λ ep. In ep c.endpoints) eps
      → Reaches s s₁
      → AllHonest s results
      → Reaches s (observe_each R native rds_state update_status c eps results s₁).0
        × AllHonest s (observe_each R native rds_state update_status c eps results s₁).1
  unfolding observe_each
  observe_each-AllHonest s [] results s₁ listed reached h = (reached, h)
  observe_each-AllHonest s (ep ∷ eps) results s₁ listed reached h =
      let (s₂, o) = observe_replica R native rds_state c.version ep s₁ in
      observe_each-AllHonest s eps (insert ep.pod o results) s₂ listed.1
        (Reaches.observed s₁ ep listed.0 reached)
        (insert-AllHonest s ep o results (observed-IsAgreed s s₁ ep listed.0 reached) h)

  apply_each-AllHonest :
      (s : R.State) (eps : List PodEndpoint) (results : Dict Text ReplicaObservation) (s₁ : R.State)
      → All (λ ep. In ep c.endpoints) eps
      → Reaches s s₁
      → AllHonest s results
      → AllHonest s (apply_each R native rds_state update_status c eps results s₁).1
  unfolding apply_each
  apply_each-AllHonest s [] results s₁ listed reached h = h
  apply_each-AllHonest s (ep ∷ eps) results s₁ listed reached h =
      let (s₂, o) = apply_replica R native rds_state c.version ep s₁ in
      apply_each-AllHonest s eps (insert ep.pod o results) s₂ listed.1
        (Reaches.pushed s₁ ep listed.0 reached)
        (insert-AllHonest s ep o results (pushed-IsAgreed s s₁ ep listed.0 reached) h)

  observation_of-IsAgreed :
      (s : R.State) (results : Dict Text ReplicaObservation) (ep : PodEndpoint)
      → AllHonest s results
      → (observation_of results ep).status.converged ≡ true
      → IsAgreed s ep.pod
  observation_of-IsAgreed s results ep h converged =
      let (o, found, agreed) = converged_cases (lookup ep.pod results) converged in
      h ep.pod o found agreed

  sync_errs_nil :
      (s : R.State) (results : Dict Text ReplicaObservation) (eps : List PodEndpoint)
      → AllHonest s results
      → sync_errs results eps ≡ []
      → All (λ ep. IsAgreed s ep.pod) eps
  unfolding sync_errs
  sync_errs_nil s results [] h none_failed = tt
  sync_errs_nil s results (ep ∷ eps) h none_failed =
      let (converged, others) =
        noted_nil (observation_of results ep).status.converged _ (sync_errs results eps)
          none_failed in
      (observation_of-IsAgreed s results ep h converged, sync_errs_nil s results eps h others)

  -- The digest of a status that is written is the old one, or every replica was read and agrees.
  abbrev pub IsBacked : R.State → Option ConfigStatus → Type 0
  IsBacked s none = Unit
  IsBacked s (some st) =
      (st.last_applied_hash ≡ c.status.last_applied_hash)
      ⊎ ((st.last_applied_hash ≡ c.hash) × All (λ ep. IsAgreed s ep.pod) c.endpoints)

  finish-IsBacked :
      (st : ConfigStatus) (sum : Summary) (errs : List Text) (t : ℕ) (synced : Bool)
      (s s₁ : R.State)
      → st.last_applied_hash ≡ c.status.last_applied_hash
      → (synced ≡ true → All (λ ep. IsAgreed s ep.pod) c.endpoints)
      → IsBacked s (finish R native rds_state update_status c st sum errs t synced s₁).1.0
  unfolding finish update_and_requeue synced_status partial_status
  finish-IsBacked st sum errs t true s s₁ h agreed = inr (refl, agreed refl)
  finish-IsBacked st sum errs t false s s₁ h agreed = inl h

  all_synced_nil :
      (sum : Summary) (errs : List Text)
      → all_synced R native rds_state update_status c sum errs ≡ true
      → errs ≡ []
  all_synced_nil sum [] h = refl
  all_synced_nil sum (e ∷ errs) h = absurd cc

  conclude_push-IsBacked :
      (st : ConfigStatus) (results : Dict Text ReplicaObservation) (s s₁ : R.State)
      → st.last_applied_hash ≡ c.status.last_applied_hash
      → AllHonest s results
      → IsBacked s (conclude_push R native rds_state update_status c st results s₁).1.0
  unfolding conclude_push
  conclude_push-IsBacked st results s s₁ h honest =
      let sum = summarize_replicas (map (observation_of results) c.endpoints) in
      finish-IsBacked st sum (sync_errs results c.endpoints) _ _ s _ h λ synced.
        sync_errs_nil s results c.endpoints honest
          (all_synced_nil sum (sync_errs results c.endpoints) synced)

  no_results-AllHonest : (s : R.State) → AllHonest s []
  unfolding lookup
  no_results-AllHonest s pod o found = absurd cc

  All-listed : All (λ ep. In ep c.endpoints) c.endpoints
  All-listed = every-In c.endpoints c.endpoints (λ ep i. i)

  only_observed-In :
      (push : List PodEndpoint)
      → All (λ ep. In ep c.endpoints) (only_observed R native rds_state update_status c push)
  unfolding only_observed
  only_observed-In push = elim (Bool-cases (eqb (length push) (length c.endpoints))) [
    | inl e ↦ rw e tt
    | inr e ↦ rw e (keep-In (λ ep. not (is_candidate ep push)) c.endpoints c.endpoints All-listed)
  ]

  push_to-IsBacked :
      (st : ConfigStatus) (push : List PodEndpoint) (s s₁ : R.State)
      → All (λ ep. In ep c.endpoints) push
      → Reaches s s₁
      → st.last_applied_hash ≡ c.status.last_applied_hash
      → IsBacked s (push_to R native rds_state update_status c st push s₁).1.0
  unfolding push_to
  push_to-IsBacked st push s s₁ listed reached h =
      let others = only_observed R native rds_state update_status c push in
      let (s₂, seen) = observe_each R native rds_state update_status c others [] s₁ in
      let (reached₂, honest) =
        observe_each-AllHonest s others [] s₁ (only_observed-In push) reached
          (no_results-AllHonest s) in
      conclude_push-IsBacked st _ s _ h (apply_each-AllHonest s push seen s₂ listed reached₂ honest)

  after_observations-IsBacked :
      (st : ConfigStatus) (t : ℕ) (drifted : List PodEndpoint) (s s₁ : R.State)
      → All (λ ep. In ep c.endpoints) drifted
      → Reaches s s₁
      → st.last_applied_hash ≡ c.status.last_applied_hash
      → IsBacked s (after_observations R native rds_state update_status c st t drifted s₁).1.0
  unfolding after_observations update_and_requeue
  after_observations-IsBacked st t [] s s₁ listed reached h = inl h
  after_observations-IsBacked st t (ep ∷ drifted) s s₁ listed reached h =
      push_to-IsBacked st (ep ∷ drifted) s s₁ listed reached h

  add_if-In :
      (b : Bool) (ep : PodEndpoint) (drifted : List PodEndpoint)
      → In ep c.endpoints
      → All (λ ep. In ep c.endpoints) drifted
      → All (λ ep. In ep c.endpoints) (if b then ep ∷ drifted else drifted)
  add_if-In true ep drifted i h = (i, h)
  add_if-In false ep drifted i h = h

  observe_all-Reaches :
      (eps : List PodEndpoint) (s s₁ : R.State)
      → All (λ ep. In ep c.endpoints) eps
      → Reaches s s₁
      → Reaches s (observe_all R native rds_state update_status c eps s₁).0
        × All (λ ep. In ep c.endpoints) (observe_all R native rds_state update_status c eps s₁).1.1
  unfolding observe_all
  observe_all-Reaches [] s s₁ listed reached = (reached, tt)
  observe_all-Reaches (ep ∷ eps) s s₁ listed reached =
      let (s₂, o) = observe_replica R native rds_state c.version ep s₁ in
      let (reached₂, drifted) =
        observe_all-Reaches eps s s₂ listed.1 (Reaches.observed s₁ ep listed.0 reached) in
      (reached₂, add_if-In o.drifted ep _ listed.0 drifted)

  proceed-IsBacked :
      (unchanged due : Bool) (s s₁ : R.State)
      → Reaches s s₁
      → IsBacked s (proceed R native rds_state update_status c unchanged due s₁).1.0
  unfolding proceed resync
  proceed-IsBacked true false s s₁ reached = tt
  proceed-IsBacked true true s s₁ reached =
      let (reached₂, drifted) = observe_all-Reaches c.endpoints s s₁ All-listed reached in
      after_observations-IsBacked _ _ _ s _ drifted (Reaches.clock _ reached₂) refl
  proceed-IsBacked false due s s₁ reached =
      push_to-IsBacked c.status c.endpoints s s₁ All-listed reached refl

  -- Whatever the replicas answer, the digest in a status that is written is the one that was there,
  -- or is the new one, and for every replica of the list, by its pod's name, this reconcile has
  -- dialled the replica at its address, after a push or without one, and read that it does not differ
  -- from what is desired.
  pub reconcile_ready_replicas-IsBacked :
      (s s' : R.State) (written : Option ConfigStatus) (r : Result ℕ)
      → reconcile_ready_replicas R native rds_state update_status c s ≡ (s', (written, r))
      → IsBacked s written
  unfolding reconcile_ready_replicas
  reconcile_ready_replicas-IsBacked s s' written r h =
      subst (λ p. IsBacked s p.1.0) h (proceed-IsBacked _ _ s _ (Reaches.clock s (Reaches.here)))
