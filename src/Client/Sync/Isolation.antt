-- ===== src/Client/Sync/Isolation.antt =====
-- One section's failure neither stops nor hides another's.
use proxysql_on_k8s.Base.{◌≡◌, refl, List, [], ◌∷◌, Option, none, some, Option-cases, inl, inr}
use proxysql_on_k8s.Base.Text.{Text}
use proxysql_on_k8s.Client.Executor.{Executor}
use proxysql_on_k8s.Client.Sync.{SyncStep, run_steps, step_error}

module _ (E : Executor) where
  -- The state after every step has run on what the steps before it left.
  abbrev pub state_after : List (SyncStep E) → E.State → E.State
  state_after [] s = s
  state_after ((name, run) ∷ steps) s = state_after steps (run s).0

  -- The error of the first step that fails, under that step's name.
  abbrev pub first_error : List (SyncStep E) → E.State → Option Text
  first_error [] s = none
  first_error ((name, run) ∷ steps) s = elim (run s).1 [
    | some e ↦ some (step_error E name e)
    | none ↦ first_error steps (run s).0
  ]

  run_steps-some :
      (steps : List (SyncStep E)) (e : Text) (s : E.State)
      → run_steps E steps (some e) s ≡ (state_after steps s, some e)
  unfolding run_steps
  run_steps-some [] e s = refl
  run_steps-some ((name, run) ∷ steps) e s = run_steps-some steps e (run s).0

  -- Every step runs, whatever failed before it, and the first error is what is returned.
  pub run_steps_lem :
      (steps : List (SyncStep E)) (s : E.State)
      → run_steps E steps none s ≡ (state_after steps s, first_error steps s)
  unfolding run_steps
  run_steps_lem [] s = refl
  run_steps_lem ((name, run) ∷ steps) s = elim (Option-cases (run s).1) [
    | inl e ↦ rw e (run_steps_lem steps (run s).0)
    | inr (e, h) ↦ rw h (run_steps-some steps (step_error E name e) (run s).0)
  ]
