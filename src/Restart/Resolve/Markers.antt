-- ===== src/Restart/Resolve/Markers.antt =====
-- What a reconcile writes down when it decides without an error.
use proxysql_on_k8s.Base.Calls.{Reader, ok, attempt, wrapped, give, ◌>>=◌}
use proxysql_on_k8s.Base.{
  ℕ, ◌≡◌, ◌⊎◌, inl, inr, refl, ap, ◌∙◌, subst, Bool, true, false, ◌&&◌, ltb, length, List, [], ◌∷◌,
  none, All, ◌==◌, text_eq, arith, if◌then◌else◌,
}
use proxysql_on_k8s.Base.Calls.Returns.{
  bind_values, attempt-ok, wrapped-ok, give-Leads, ok-injective,
}
use proxysql_on_k8s.Base.Dict.{Dict, keys, insert}
use proxysql_on_k8s.Base.Text.{Text, codes}
use proxysql_on_k8s.Client.Runtime.{read_global_variables}
use proxysql_on_k8s.Client.Sync.Variables.{value_of}
use proxysql_on_k8s.Restart.Cnf.{parse_cnf_variables}
use proxysql_on_k8s.Restart.Verdict.{
  Data, Change, CnfVerdict, boot_hash, keep_prev, runtime_try, structural, proxysql_cnf_key,
  vars_hash, structural_hash, classify_cnf_change, group_by_domain,
}
use proxysql_on_k8s.Restart.Resolve.{
  Pods, Annotations, at_address, has_any, monitor_keys, domains, put_mismatched, sorted_keys,
  querier_at, apply_domains, push_to, push_all, read_back, push_to_endpoints, unless_unreachable,
  push_changed, carry_out, resolve_restart_checksum,
}

-- Every variable read back is as it was pushed.
abbrev pub IsReadBack : Dict Text Text → Dict Text Text → Type 0
IsReadBack got changed = All (λ e. value_of got e.0 ≡ e.1) changed

insert-ne-nil : (k : Text) (v : Bool) (m : Dict Text Bool) → insert k v m ≡ [] → ⊥
unfolding insert
insert-ne-nil k v [] h = absurd cc
insert-ne-nil k v ((j, w) ∷ m) h = ground (arith, h)

put_mismatched_nil :
    (got changed : Dict Text Text) (mismatched : Dict Text Bool)
    → put_mismatched got changed mismatched ≡ []
    → (mismatched ≡ []) × IsReadBack got changed
unfolding put_mismatched
put_mismatched_nil got [] mismatched h = (h, tt)
put_mismatched_nil got ((k, want) ∷ changed) mismatched h =
    let (before, others) = put_mismatched_nil got changed _ h in
    let (same, matched) = compared_nil k want (value_of got k) mismatched before in
    (same, (matched, others))
  where
    compared_nil :
        (k want value : Text) (m : Dict Text Bool)
        → (if value == want then m else insert k true m) ≡ []
        → (m ≡ []) × (value ≡ want)
    compared_nil k want value m h = ground (arith, insert-ne-nil k true m, h)

module _ (P : Pods) (changed : Dict Text Text) where
  -- One replica was dialled, took the variables, and reads them back as they were pushed.
  abbrev pub IsMatched : Text → P.State → P.State → Type 0
  IsMatched addr s s' =
      (s₁ : P.State) × (s₂ : P.State) × (got : Dict Text Text) × (P.dial addr s ≡ (s₁, none))
      × (apply_domains P addr (group_by_domain changed) domains s₁ ≡ (s₂, ok tt))
      × (read_global_variables (querier_at P addr) (sorted_keys changed) s₂ ≡ (s', ok got))
      × IsReadBack got changed

  abbrev pub AllMatched : List Text → P.State → P.State → Type 0
  AllMatched [] s s' = s ≡ s'
  AllMatched (addr ∷ addrs) s s' = (s₁ : P.State) × IsMatched addr s s₁ × AllMatched addrs s₁ s'

  given : {A : Type 0} (a b : A) (s s' : P.State) → give a s ≡ (s', ok b) → (s ≡ s') × (a ≡ b)
  given a b s s' h = (ap (λ r. r.0) h, ok-injective s s' a b h)

  push_to-IsMatched :
      (addr : Text) (mismatched : Dict Text Bool) (s s' : P.State)
      → push_to P changed addr mismatched s ≡ (s', ok [])
      → (mismatched ≡ []) × IsMatched addr s s'
  unfolding push_to
  push_to-IsMatched addr mismatched s s' h =
      let read : Reader P.State (Dict Text Text) =
        read_global_variables (querier_at P addr) (sorted_keys changed) in
      let compare : Dict Text Text → Reader P.State (Dict Text Bool) =
        λ got. give (put_mismatched got changed mismatched) in
      let read_back_from : Reader P.State (Dict Text Text) =
        wrapped (at_address (codes "read back variables on ") addr) read in
      let apply : Reader P.State Unit = apply_domains P addr (group_by_domain changed) domains in
      let (s₁, u, dialled, on) =
        bind_values (attempt (at_address (codes "dial ") addr) (P.dial addr))
          (λ u. apply >>= λ v. read_back_from >>= compare) s s' [] h in
      let (s₂, v, applied, rest) =
        bind_values apply (λ v. read_back_from >>= compare) s₁ s' [] on in
      let (s₃, got, found, end) = bind_values read_back_from compare s₂ s' [] rest in
      let (same, nothing) = given (put_mismatched got changed mismatched) [] s₃ s' end in
      let (before, matched) = put_mismatched_nil got changed mismatched nothing in
      (
        before,
        (
          s₁,
          s₂,
          got,
          attempt-ok _ (P.dial addr) s s₁ u dialled,
          applied,
          wrapped-ok _ read s₂ s₃ got found ∙ ap (λ t. (t, ok got)) same,
          matched,
        ),
      )

  push_all-AllMatched :
      (addrs : List Text) (mismatched : Dict Text Bool) (s s' : P.State)
      → push_all P changed addrs mismatched s ≡ (s', ok [])
      → (mismatched ≡ []) × AllMatched addrs s s'
  unfolding push_all
  push_all-AllMatched [] mismatched s s' h =
      let (same, nothing) = given mismatched [] s s' h in (nothing, same)
  push_all-AllMatched (addr ∷ addrs) mismatched s s' h =
      let (s₁, found, pushed, on) =
        bind_values (push_to P changed addr mismatched) (push_all P changed addrs) s s' [] h in
      let (nothing, others) = push_all-AllMatched addrs found s₁ s' on in
      let (before, matched) =
        push_to-IsMatched addr mismatched s s₁ (pushed ∙ ap (λ f. (s₁, ok f)) nothing) in
      (before, (s₁, matched, others))

module _ (P : Pods) (digest : Text → Text) (old new : Data)
    (prev new_hash applied_vars structural_applied : Text) (replicas : ℕ) where
  -- The markers record the new Secret.
  abbrev pub IsMarked : Annotations → Type 0
  IsMarked a =
      (a.vars_applied ≡ vars_hash digest (parse_cnf_variables (value_of new proxysql_cnf_key)))
      × (a.structural_applied ≡ structural_hash digest new)

  -- The pods were found, a change of the monitor's credentials can reach every replica, and there is
  -- no pod, or each of them in turn took the change and reads it back.
  abbrev pub IsApplied : Dict Text Text → P.State → P.State → Type 0
  IsApplied changed s s' =
      (addrs : List Text) × (s₁ : P.State) × (P.discover s ≡ (s₁, ok addrs))
      × ((has_any monitor_keys changed && ltb (length addrs) replicas) ≡ false)
      × ((addrs ≡ [])
          ⊎ ((s₂ : P.State) × (P.dial_tls addrs s₁ ≡ (s₂, none))
              × AllMatched P changed addrs s₂ s'))

  -- What the verdict does with the checksum, by which the pods restart.
  abbrev pub IsDecided : CnfVerdict → Change → P.State → P.State → Annotations → Type 0
  IsDecided boot_hash change s s' a = a.checksum ≡ new_hash
  IsDecided structural change s s' a = a.checksum ≡ new_hash
  IsDecided keep_prev change s s' a = a.checksum ≡ prev
  IsDecided runtime_try change s s' a =
      (a.checksum ≡ new_hash) ⊎ ((a.checksum ≡ prev) × IsApplied change.changed s s')

  read_back-cases :
      (changed : Dict Text Text) (mismatched : Dict Text Bool)
      → let a : Annotations =
          read_back P digest old new prev new_hash applied_vars structural_applied replicas changed
            (keys mismatched) in
        IsMarked a × ((a.checksum ≡ new_hash) ⊎ ((a.checksum ≡ prev) × (mismatched ≡ [])))
  unfolding read_back keys
  read_back-cases changed [] = ((refl, refl), inr (refl, refl))
  read_back-cases changed ((k, v) ∷ mismatched) = ((refl, refl), inl refl)

  -- What a decision for the runtime is, when the pods were found.
  abbrev IsTried : Dict Text Text → P.State → P.State → Annotations → Type 0
  IsTried changed s s' a =
      IsMarked a × ((a.checksum ≡ new_hash) ⊎ ((a.checksum ≡ prev) × IsApplied changed s s'))

  push_to_endpoints-IsTried :
      (changed : Dict Text Text) (addrs : List Text) (s s₁ s' : P.State) (a : Annotations)
      → P.discover s ≡ (s₁, ok addrs)
      → (has_any monitor_keys changed && ltb (length addrs) replicas) ≡ false
      → push_to_endpoints P digest old new prev new_hash applied_vars structural_applied replicas
          changed addrs s₁
        ≡ (s', ok a)
      → IsTried changed s s' a
  unfolding push_to_endpoints
  push_to_endpoints-IsTried changed [] s s₁ s' a found reachable h =
      give-Leads (λ t a. IsTried changed s t a) _
        (λ t. ((refl, refl), inr (refl, ([], s₁, found, reachable, inl refl)))) s₁ s' a h
  push_to_endpoints-IsTried changed (addr ∷ addrs) s s₁ s' a found reachable h =
      let concluded : Dict Text Bool → Annotations = λ m.
        read_back P digest old new prev new_hash applied_vars structural_applied replicas changed
          (keys m) in
      let (s₂, u, dialled, on) =
        bind_values (attempt _ (P.dial_tls (addr ∷ addrs)))
          (λ u. push_all P changed (addr ∷ addrs) [] >>= λ m. give (concluded m)) s₁ s' a h in
      let (s₃, mismatched, pushed, end) =
        bind_values (push_all P changed (addr ∷ addrs) []) (λ m. give (concluded m)) s₂ s' a on in
      let (same, is_a) = given P changed (concluded mismatched) a s₃ s' end in
      let (marks, cases) = read_back-cases changed mismatched in
      subst (λ b. IsTried changed s s' b) is_a
        (
          marks,
          elim cases [
            | inl restarts ↦ inl restarts
            | inr (kept, nothing) ↦
                let (_, matched) =
                  push_all-AllMatched P changed (addr ∷ addrs) [] s₂ s'
                    (pushed ∙ ap (λ m. (s₃, ok m)) nothing ∙ ap (λ t. (t, ok [])) same) in
                inr (
                  kept,
                  (
                    addr ∷ addrs,
                    s₁,
                    found,
                    reachable,
                    inr (s₂, attempt-ok _ (P.dial_tls (addr ∷ addrs)) s₁ s₂ u dialled, matched),
                  ),
                )
          ],
        )

  unless_unreachable-IsTried :
      (changed : Dict Text Text) (addrs : List Text) (unreachable : Bool) (s s₁ s' : P.State)
      (a : Annotations)
      → P.discover s ≡ (s₁, ok addrs)
      → (has_any monitor_keys changed && ltb (length addrs) replicas) ≡ unreachable
      → unless_unreachable P digest old new prev new_hash applied_vars structural_applied replicas
          unreachable
          (push_to_endpoints P digest old new prev new_hash applied_vars structural_applied replicas
            changed addrs)
          s₁
        ≡ (s', ok a)
      → IsTried changed s s' a
  unless_unreachable-IsTried changed addrs true s s₁ s' a found far h =
      give-Leads (λ t a. IsTried changed s t a) _ (λ t. ((refl, refl), inl refl)) s₁ s' a h
  unless_unreachable-IsTried changed addrs false s s₁ s' a found reachable h =
      push_to_endpoints-IsTried changed addrs s s₁ s' a found reachable h

  push_changed-IsTried :
      (changed : Dict Text Text) (s s' : P.State) (a : Annotations)
      → push_changed P digest old new prev new_hash applied_vars structural_applied replicas changed
          s
        ≡ (s', ok a)
      → IsTried changed s s' a
  unfolding push_changed
  push_changed-IsTried changed s s' a h =
      let pushed : List Text → Reader P.State Annotations = λ addrs.
        unless_unreachable P digest old new prev new_hash applied_vars structural_applied replicas
          (has_any monitor_keys changed && ltb (length addrs) replicas)
          (push_to_endpoints P digest old new prev new_hash applied_vars structural_applied replicas
            changed addrs) in
      let (s₁, addrs, found, on) = bind_values P.discover pushed s s' a h in
      unless_unreachable-IsTried changed addrs _ s s₁ s' a found refl on

  carry_out-IsDecided :
      (verdict : CnfVerdict) (change : Change) (s s' : P.State) (a : Annotations)
      → carry_out P digest old new prev new_hash applied_vars structural_applied replicas verdict
          change s
        ≡ (s', ok a)
      → IsMarked a × IsDecided verdict change s s' a
  unfolding carry_out
  carry_out-IsDecided boot_hash change s s' a =
      give-Leads (λ t a. IsMarked a × (a.checksum ≡ new_hash)) _ (λ t. ((refl, refl), refl)) s s' a
  carry_out-IsDecided structural change s s' a =
      give-Leads (λ t a. IsMarked a × (a.checksum ≡ new_hash)) _ (λ t. ((refl, refl), refl)) s s' a
  carry_out-IsDecided keep_prev change s s' a =
      give-Leads (λ t a. IsMarked a × (a.checksum ≡ prev)) _ (λ t. ((refl, refl), refl)) s s' a
  carry_out-IsDecided runtime_try change s s' a = push_changed-IsTried change.changed s s' a

  -- A decision without an error records the digests of the new Secret in both markers. It moves the
  -- checksum to the new one where the verdict is that of a first boot or of a structural change, and
  -- keeps it where nothing is to be done. Where the change is tried at run time, the checksum moves,
  -- or it is kept and the pods were found, credentials of the monitor that changed can reach every
  -- replica, and there was no pod, or every pod in turn took the changed variables and read all of
  -- them back with the values that were pushed.
  pub resolve_restart_checksum-IsMarked :
      (s s' : P.State) (a : Annotations)
      → resolve_restart_checksum P digest old new prev new_hash applied_vars structural_applied
          replicas s
        ≡ (s', ok a)
      → let change : Change =
          classify_cnf_change digest old new prev new_hash applied_vars structural_applied in
        IsMarked a × IsDecided change.verdict change s s' a
  unfolding resolve_restart_checksum
  resolve_restart_checksum-IsMarked =
      let change =
        classify_cnf_change digest old new prev new_hash applied_vars structural_applied in
      carry_out-IsDecided change.verdict change
