-- ===== src/Rotation/Reload/Laws.antt =====
-- A replica passes only by serving the expected certificate.
use proxysql_on_k8s.Base.{
  same_lem, ℕ, zero, suc, ◌≡◌, ◌⊎◌, inl, inr, refl, ap, ◌∙◌, subst, Bool, true, false, Option, none,
  some, ◌==◌, text_eq, if◌then◌else◌,
}
use proxysql_on_k8s.Base.Calls.{Action, succeed, Result, ok, failed}
use proxysql_on_k8s.Base.Calls.Returns.{>>-cases, error-ne-none}
use proxysql_on_k8s.Base.Text.{Text}
use proxysql_on_k8s.Rotation.Reload.{
  Library, Connections, PeerCheck, probe_tls_leaf_fingerprint, serves, pause, after_probe,
  after_reload, still_serving, reload_tls_on, probe_again, verify_attempts, reload_then_verify,
  reload_and_verify_tls,
}

-- What succeeded was the empty step or the other one.
succeed-or :
    {S : Type 0} (b : Bool) (k : Action S) (s s' : S)
    → (if b then succeed else k) s ≡ (s', none)
    → ((b ≡ true) × (s ≡ s')) ⊎ (k s ≡ (s', none))
succeed-or true k s s' h = inl (refl, ap (λ p. p.0) h)
succeed-or false k s s' h = inr h

module _ (L : Library) (C : Connections) (addr expected_fp : Text) (check : PeerCheck) where
  -- The last thing done was a probe that saw the expected certificate.
  abbrev pub HasServed : C.State → Type 0
  HasServed s' =
      (s : C.State) × (probe_tls_leaf_fingerprint L C addr check s ≡ (s', ok expected_fp))

  serves-HasServed :
      (s s' : C.State) (r : Result Text)
      → probe_tls_leaf_fingerprint L C addr check s ≡ (s', r)
      → serves expected_fp r ≡ true
      → HasServed s'
  unfolding serves
  serves-HasServed s s' (ok fp) p h = (s, p ∙ ap (λ f. (s', ok f)) (same_lem fp expected_fp h))
  serves-HasServed s s' (failed e) p h = absurd cc

  NextFrom : (Option Text → Action C.State) → C.State → C.State → Type 0
  NextFrom next s s' = (e : Text) × (next (some e) s ≡ (s', none))

  after_probe-cases :
      (next : Option Text → Action C.State) (s s₁ s' : C.State) (r : Result Text)
      → probe_tls_leaf_fingerprint L C addr check s ≡ (s₁, r)
      → after_probe L C addr expected_fp check next r s₁ ≡ (s', none)
      → HasServed s' ⊎ NextFrom next s₁ s'
  unfolding after_probe NextFrom
  after_probe-cases next s s₁ s' (failed e) p h = inr (_, h)
  after_probe-cases next s s₁ s' (ok fp) p h =
      elim (succeed-or (fp == expected_fp) (next (some (still_serving fp expected_fp))) s₁ s' h) [
        | inl (same, end) ↦ inl (
          s,
          p
              ∙ ap (λ f. (s₁, ok f)) (same_lem fp expected_fp same)
              ∙ ap (λ u. (u, ok expected_fp)) end,
        )
        | inr more ↦ inr (_, more)
      ]

  probe_again-cases :
      (next : Option Text → Action C.State) (s s' : C.State)
      → probe_again L C addr expected_fp check next s ≡ (s', none)
      → HasServed s' ⊎ ((s₁ : C.State) × NextFrom next s₁ s')
  unfolding probe_again
  probe_again-cases next s s' h =
      let (s₁, r) = probe_tls_leaf_fingerprint L C addr check s in
      elim (after_probe-cases next s s₁ s' r refl h) [
        | inl served ↦ inl served
        | inr more ↦ inr (s₁, more)
      ]

  attempt-HasServed :
      (first : Bool) (left : ℕ) (last_err : Option Text) (s s' : C.State)
      → ((s₁ : C.State)
          → NextFrom (verify_attempts L C addr expected_fp check false left) s₁ s'
          → HasServed s')
      → verify_attempts L C addr expected_fp check first (suc left) last_err s ≡ (s', none)
      → HasServed s'
  unfolding verify_attempts
  attempt-HasServed first left last_err s s' ih h =
      let next = verify_attempts L C addr expected_fp check false left in
      let (s₁, paused, rest) =
        >>-cases (pause L C addr expected_fp check first)
          (probe_again L C addr expected_fp check next) s s' h in
      elim (probe_again-cases next s₁ s' rest) [ inl served ↦ served | inr (s₂, more) ↦ ih s₂ more ]

  later-HasServed :
      (left : ℕ) (s s' : C.State)
      → NextFrom (verify_attempts L C addr expected_fp check false left) s s'
      → HasServed s'
  unfolding NextFrom verify_attempts
  later-HasServed zero s s' (e, h) = absurd (error-ne-none s s' e h)
  later-HasServed (suc left) s s' (e, h) =
      attempt-HasServed false left (some e) s s' (λ s₁ next. later-HasServed left s₁ s' next) h

  after_reload-HasServed :
      (err : Option Text) (s s' : C.State)
      → after_reload L C addr expected_fp check err s ≡ (s', none)
      → HasServed s'
  unfolding after_reload
  after_reload-HasServed none s s' h =
      attempt-HasServed true 2 none s s' (λ s₁ next. later-HasServed 2 s₁ s' next) h
  after_reload-HasServed (some e) s s' h = absurd (error-ne-none s s' _ h)

  -- A replica that passes has, at last, been seen to serve the expected certificate.
  pub reload_and_verify_tls-HasServed :
      (s s' : C.State)
      → reload_and_verify_tls L C addr expected_fp check s ≡ (s', none)
      → HasServed s'
  unfolding reload_and_verify_tls reload_then_verify
  reload_and_verify_tls-HasServed s s' h =
      let (s₁, r) = probe_tls_leaf_fingerprint L C addr check s in
      elim (succeed-or (serves expected_fp r) (reload_then_verify L C addr expected_fp check) s₁ s'
        h) [
          | inl (same, end) ↦ subst HasServed end (serves-HasServed s s₁ r refl same)
          | inr more ↦
              let (s₂, err) = reload_tls_on L C addr check s₁ in
              after_reload-HasServed err s₂ s' more
        ]
