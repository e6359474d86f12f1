-- ===== src/Cluster/Status/Laws.antt =====
-- What the phase and the conditions of one status say together.
use proxysql_on_k8s.Base.{
  Bool, true, false, ◌&&◌, not, Option, none, some, ◌≡◌, ◌≢◌, ◌↔◌, refl, ◌==◌, text_eq,
  if◌then◌else◌, arith, Bool-cases, inl, inr, ◌∙◌,
}
use proxysql_on_k8s.Base.Calls.{Result, ok, failed}
use proxysql_on_k8s.Base.Int.{ℤ, pos, ltb_ℤ, int_eq}
use proxysql_on_k8s.Base.Text.{Text, codes, has_prefix}
use proxysql_on_k8s.Cluster.Phase.{
  StatefulSet, missing_stateful_set, derive_phase, phase_paused, phase_running,
}
use proxysql_on_k8s.Cluster.Status.{
  ConditionStatus, condition_true, condition_false, ConditionLibrary, ConditionLaws,
  cond_type_available, cond_type_progressing, cond_type_degraded, cond_type_paused, ClusterSpec,
  Deferred, ClusterStatus, ClusterCalls, desired_replicas, set_condition, set_degraded,
  paused_conditions, set_available, set_progressing, set_conditions, concluded_status, update_with,
  update_status, send_status, with_stateful_set,
}

-- Whether this reconcile deferred an error.
abbrev pub is_deferred : Option Text → Option Text → Option Text → Bool
is_deferred none none none = false
is_deferred none none (some e) = true
is_deferred none (some e) rot = true
is_deferred (some e) tls rot = true

-- The phase and the conditions of a status tell one story.
pub record IsCoherent (L : ConditionLibrary) (errs : Deferred) (st : ClusterStatus L) : Type 0 where
  pub paused :
      (st.phase ≡ phase_paused) ↔ (L.status_of cond_type_paused st.conditions ≡ some condition_true)
  pub running :
      st.phase ≡ phase_running → L.status_of cond_type_available st.conditions ≡ some condition_true
  pub degraded :
      (L.status_of cond_type_degraded st.conditions ≡ some condition_true)
      ↔ (is_deferred errs.ext_svc errs.tls errs.rot ≡ true)

module _ (L : ConditionLibrary) (laws : ConditionLaws L) (spec : ClusterSpec) where
  set_condition-read :
      (k j : Text) (st : ConditionStatus) (reason message : Text) (cs : L.Conditions)
      → L.status_of k (set_condition L spec j st reason message cs)
        ≡ (if j == k then some st else L.status_of k cs)
  unfolding set_condition
  set_condition-read k j st reason message cs = laws.set k _ cs

  set_condition-same :
      (k : Text) (st : ConditionStatus) (reason message : Text) (cs : L.Conditions)
      → L.status_of k (set_condition L spec k st reason message cs) ≡ some st
  set_condition-same k st reason message cs =
      ground (arith, set_condition-read k k st reason message cs)

  set_condition-other :
      (k j : Text) (st : ConditionStatus) (reason message : Text) (cs : L.Conditions)
      → (j == k) ≡ false
      → L.status_of k (set_condition L spec j st reason message cs) ≡ L.status_of k cs
  set_condition-other k j st reason message cs differ =
      ground (arith, set_condition-read k j st reason message cs)

  set_degraded-other :
      (k : Text) (ext tls rot : Option Text) (cs : L.Conditions)
      → (cond_type_degraded == k) ≡ false
      → L.status_of k (set_degraded L spec ext tls rot cs) ≡ L.status_of k cs
  unfolding set_degraded
  set_degraded-other k (some e) tls rot cs differ = set_condition-other k _ _ _ _ cs differ
  set_degraded-other k none (some e) rot cs differ = set_condition-other k _ _ _ _ cs differ
  set_degraded-other k none none (some e) cs differ = set_condition-other k _ _ _ _ cs differ
  set_degraded-other k none none none cs differ =
      ground (arith, laws.remove k cond_type_degraded cs)

  set_degraded_iff :
      (ext tls rot : Option Text) (cs : L.Conditions)
      → (L.status_of cond_type_degraded (set_degraded L spec ext tls rot cs) ≡ some condition_true)
        ↔ (is_deferred ext tls rot ≡ true)
  unfolding set_degraded
  set_degraded_iff (some e) tls rot cs = ((λ h. refl), λ h. set_condition-same _ _ _ _ cs)
  set_degraded_iff none (some e) rot cs = ((λ h. refl), λ h. set_condition-same _ _ _ _ cs)
  set_degraded_iff none none (some e) cs = ((λ h. refl), λ h. set_condition-same _ _ _ _ cs)
  set_degraded_iff none none none cs =
      ground (arith, laws.remove cond_type_degraded cond_type_degraded cs)

  set_progressing-other :
      (k : Text) (ready : Bool) (summary : Text) (cs : L.Conditions)
      → (cond_type_progressing == k) ≡ false
      → L.status_of k (set_progressing L spec ready summary cs) ≡ L.status_of k cs
  unfolding set_progressing
  set_progressing-other k ready summary cs differ =
      elim (Bool-cases (has_prefix summary (codes "RuntimeApplied"))) [
        | inl e ↦ rw e (set_condition-other k _ _ _ _ cs differ)
        | inr e ↦ rw e (elim (Bool-cases (has_prefix summary (codes "RestartRequired"))) [
          | inl e ↦ rw e (set_condition-other k _ _ _ _ cs differ)
          | inr e ↦ rw e (elim (Bool-cases ready) [
            | inl e ↦ rw e (set_condition-other k _ _ _ _ cs differ)
            | inr e ↦ rw e (set_condition-other k _ _ _ _ cs differ)
          ])
        ])
      ]

  set_available-other :
      (k : Text) (replicas_ready : Bool) (ready desired : ℤ) (cs : L.Conditions)
      → (cond_type_available == k) ≡ false
      → L.status_of k (set_available L spec replicas_ready ready desired cs) ≡ L.status_of k cs
  unfolding set_available
  set_available-other k true ready desired cs differ = set_condition-other k _ _ _ _ cs differ
  set_available-other k false ready desired cs differ = set_condition-other k _ _ _ _ cs differ

  set_available-same :
      (ready desired : ℤ) (cs : L.Conditions)
      → L.status_of cond_type_available (set_available L spec true ready desired cs)
        ≡ some condition_true
  unfolding set_available
  set_available-same ready desired cs = set_condition-same cond_type_available _ _ _ cs

  -- The Paused condition of a cluster that is to be paused.
  paused_conditions-paused :
      (ready : ℤ) (cs : L.Conditions)
      → L.status_of cond_type_paused (paused_conditions L spec ready cs)
        ≡ some (if ltb_ℤ (pos 0) ready then condition_false else condition_true)
  unfolding paused_conditions text_eq
  paused_conditions-paused ready cs = elim (Bool-cases (ltb_ℤ (pos 0) ready)) [
    | inl e ↦ rw e (
        set_condition-other cond_type_paused cond_type_progressing _ _ _ _ refl
        ∙ set_condition-other cond_type_paused cond_type_available _ _ _ _ refl
        ∙ set_condition-same cond_type_paused _ _ _ cs)
    | inr e ↦ rw e (
        set_condition-other cond_type_paused cond_type_progressing _ _ _ _ refl
        ∙ set_condition-other cond_type_paused cond_type_available _ _ _ _ refl
        ∙ set_condition-same cond_type_paused _ _ _ cs)
  ]

  set_conditions-paused :
      (ready desired : ℤ) (summary : Text) (errs : Deferred) (cs : L.Conditions)
      → L.status_of cond_type_paused (set_conditions L spec true ready desired summary errs cs)
        ≡ some (if ltb_ℤ (pos 0) ready then condition_false else condition_true)
  unfolding set_conditions text_eq
  set_conditions-paused ready desired summary errs cs =
      set_degraded-other cond_type_paused _ _ _ _ refl ∙ paused_conditions-paused ready cs

  set_conditions-not_paused :
      (ready desired : ℤ) (summary : Text) (errs : Deferred) (cs : L.Conditions)
      → L.status_of cond_type_paused (set_conditions L spec false ready desired summary errs cs)
        ≡ some condition_false
  unfolding set_conditions text_eq
  set_conditions-not_paused ready desired summary errs cs =
      let ready_now = ready == desired && ltb_ℤ (pos 0) desired in
      set_degraded-other cond_type_paused _ _ _ _ refl
      ∙ set_progressing-other cond_type_paused ready_now summary _ refl
      ∙ set_available-other cond_type_paused ready_now ready desired _ refl
      ∙ set_condition-same cond_type_paused condition_false (codes "NotPaused")
          (codes "cluster is not paused") cs

  set_conditions-available :
      (ready desired : ℤ) (summary : Text) (errs : Deferred) (cs : L.Conditions)
      → (ready == desired && ltb_ℤ (pos 0) desired) ≡ true
      → L.status_of cond_type_available (set_conditions L spec false ready desired summary errs cs)
        ≡ some condition_true
  unfolding set_conditions text_eq
  set_conditions-available ready desired summary errs cs all_ready = rw all_ready (
      set_degraded-other cond_type_available _ _ _ _ refl
      ∙ set_progressing-other cond_type_available true summary _ refl
      ∙ set_available-same ready desired (
          set_condition L spec cond_type_paused condition_false (codes "NotPaused")
            (codes "cluster is not paused") cs))

  set_conditions-degraded :
      (pause : Bool) (ready desired : ℤ) (summary : Text) (errs : Deferred) (cs : L.Conditions)
      → (L.status_of cond_type_degraded (set_conditions L spec pause ready desired summary errs cs)
          ≡ some condition_true)
        ↔ (is_deferred errs.ext_svc errs.tls errs.rot ≡ true)
  unfolding set_conditions
  set_conditions-degraded true ready desired summary errs cs = set_degraded_iff _ _ _ _
  set_conditions-degraded false ready desired summary errs cs = set_degraded_iff _ _ _ _

-- The phase of a cluster that is to be paused says which of the two cases it is.
derive_phase-paused_iff :
    (ss : StatefulSet) (missing : Bool) (desired : ℤ)
    → (derive_phase ss missing desired true ≡ phase_paused)
      ↔ ((not missing && ltb_ℤ (pos 0) ss.ready_replicas) ≡ false)
unfolding derive_phase
derive_phase-paused_iff ss missing desired = ground arith

derive_phase-not_paused :
    (ss : StatefulSet) (missing : Bool) (desired : ℤ)
    → derive_phase ss missing desired false ≢ phase_paused
unfolding derive_phase
derive_phase-not_paused ss missing desired = ground arith

derive_phase-running :
    (ss : StatefulSet) (missing : Bool) (desired : ℤ)
    → ltb_ℤ desired (pos 0) ≡ false
    → derive_phase ss missing desired false ≡ phase_running
    → (ss.ready_replicas == desired && ltb_ℤ (pos 0) desired) ≡ true
unfolding derive_phase int_eq
derive_phase-running ss missing desired = ground arith

derive_phase-running_paused :
    (ss : StatefulSet) (missing : Bool) (desired : ℤ)
    → derive_phase ss missing desired true ≢ phase_running
unfolding derive_phase
derive_phase-running_paused ss missing desired = ground arith

module _ (L : ConditionLibrary) (laws : ConditionLaws L) (spec : ClusterSpec) where
  set_conditions-IsCoherent :
      (pause : Bool) (ss : StatefulSet) (missing : Bool) (desired : ℤ) (summary : Text)
      (errs : Deferred) (st : ClusterStatus L)
      → ltb_ℤ desired (pos 0) ≡ false
      → (missing ≡ true → ltb_ℤ (pos 0) ss.ready_replicas ≡ false)
      → IsCoherent L errs (record st {
        phase = derive_phase ss missing desired pause;
        conditions =
            set_conditions L spec pause ss.ready_replicas desired summary errs st.conditions;
      })
  set_conditions-IsCoherent true ss missing desired summary errs st range none_ready = record {
    paused = ground (
      arith,
      derive_phase-paused_iff ss missing desired,
      none_ready,
      set_conditions-paused L laws spec ss.ready_replicas desired summary errs st.conditions,
    );
    running = λ h. absurd (derive_phase-running_paused ss missing desired h);
    degraded =
        set_conditions-degraded L laws spec true ss.ready_replicas desired summary errs
          st.conditions;
  }
  set_conditions-IsCoherent false ss missing desired summary errs st range none_ready = record {
    paused = ground (
      arith,
      derive_phase-not_paused ss missing desired,
      set_conditions-not_paused L laws spec ss.ready_replicas desired summary errs st.conditions,
    );
    running = λ h.
        set_conditions-available L laws spec ss.ready_replicas desired summary errs st.conditions
          (derive_phase-running ss missing desired range h);
    degraded =
        set_conditions-degraded L laws spec false ss.ready_replicas desired summary errs
          st.conditions;
  }

module _ (L : ConditionLibrary) (laws : ConditionLaws L) (C : ClusterCalls L) (spec : ClusterSpec)
    (range : ltb_ℤ (desired_replicas spec.replicas) (pos 0) ≡ false) where
  send_status-IsCoherent :
      (ss : StatefulSet) (missing : Bool) (summary : Text) (errs : Deferred) (st : ClusterStatus L)
      (ext : Result Text) (s : C.State)
      → (missing ≡ true → ltb_ℤ (pos 0) ss.ready_replicas ≡ false)
      → (send_status L C spec ss missing summary errs st ext s).1.1 ≡ none
      → IsCoherent L errs (send_status L C spec ss missing summary errs st ext s).1.0
  unfolding send_status concluded_status
  send_status-IsCoherent ss missing summary errs st (failed e) s none_ready h = absurd cc
  send_status-IsCoherent ss missing summary errs st (ok ext) s none_ready h =
      set_conditions-IsCoherent L laws spec spec.pause ss missing (desired_replicas spec.replicas)
        summary errs (record st { endpoints = record st.endpoints { external = ext } }) range
        none_ready

  with_stateful_set-IsCoherent :
      (summary : Text) (errs : Deferred) (st : ClusterStatus L)
      (found : Result (Option StatefulSet)) (s : C.State)
      → (with_stateful_set L C spec summary errs st found s).1.1 ≡ none
      → IsCoherent L errs (with_stateful_set L C spec summary errs st found s).1.0
  unfolding with_stateful_set update_with
  with_stateful_set-IsCoherent summary errs st (failed e) s h = absurd cc
  with_stateful_set-IsCoherent summary errs st (ok none) s h =
      send_status-IsCoherent missing_stateful_set true summary errs _ _ _ (λ m. refl) h
  with_stateful_set-IsCoherent summary errs st (ok (some ss)) s h =
      send_status-IsCoherent ss false summary errs _ _ _ (λ m. absurd cc) h

  -- Where no negative number of replicas is asked for, and the conditions are kept as the library
  -- documents it, an update without an error leaves a status in which the phase is Paused exactly
  -- when the Paused condition is True, a phase of Running stands beside a True Available condition,
  -- and Degraded is True exactly when this reconcile deferred an error.
  pub update_status-IsCoherent :
      (summary : Text) (errs : Deferred) (st : ClusterStatus L) (s : C.State)
      → (update_status L C spec summary errs st s).1.1 ≡ none
      → IsCoherent L errs (update_status L C spec summary errs st s).1.0
  unfolding update_status
  update_status-IsCoherent summary errs st s = with_stateful_set-IsCoherent summary errs st _ _
