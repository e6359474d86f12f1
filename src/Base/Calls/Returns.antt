-- ===== src/Base/Calls/Returns.antt =====
-- What holds of every value that a function with errors returns.
use proxysql_on_k8s.Base.{◌≡◌, ◌⊎◌, inl, inr, refl, sym, ap, ◌∙◌, subst, Option, none, some}
use proxysql_on_k8s.Base.Text.{Text}
use proxysql_on_k8s.Base.Calls.{
  Action, ◌>>◌, >>_none, >>_some, Reader, Result, ok, failed, ◌>>=◌, give, attempt, wrapped, total,
}

-- Every value that a reader may return satisfies a predicate.
abbrev pub Returns : {S A : Type 0} → (A → Type 0) → Reader S A → Type 0
Returns {S} {A} Q m = (s s' : S) (a : A) → m s ≡ (s', ok a) → Q a

-- Every value that a reader may return is in a relation with the state that it leaves.
abbrev pub Leads : {S A : Type 0} → (S → A → Type 0) → Reader S A → Type 0
Leads {S} {A} Q m = (s s' : S) (a : A) → m s ≡ (s', ok a) → Q s' a

-- What `attempt` does with an answer.
abbrev attempted : {S : Type 0} → (Text → Text) → S × Option Text → S × Result Unit
attempted wrap r = elim r.1 [ none ↦ (r.0, ok tt) | some e ↦ (r.0, failed (wrap e)) ]

abbrev pub or_else : {A : Type 0} → A → Result A → A
or_else a (ok b) = b
or_else a (failed e) = a

-- What `wrapped` does with a result.
abbrev on_failure : {S A : Type 0} → (Text → Text) → S × Result A → S × Result A
on_failure wrap r = elim r.1 [ ok a ↦ (r.0, ok a) | failed e ↦ (r.0, failed (wrap e)) ]

module _ {S : Type 0} where
  pub ok-injective :
      {A : Type 0} (s s' : S) (a b : A) → ◌≡◌ {A = S × Result A} (s, ok a) (s', ok b) → a ≡ b
  ok-injective s s' a b h = cc

  pub give-Returns : {A : Type 0} (Q : A → Type 0) (a : A) → Q a → Returns {S = S} Q (give a)
  give-Returns Q a q s s' b h = subst Q (ok-injective s s' a b h) q

  pub failed-ne-ok :
      {A : Type 0} (s s' : S) (e : Text) (a : A)
      → ◌≡◌ {A = S × Result A} (s, failed e) (s', ok a)
      → ⊥
  failed-ne-ok s s' e a h = cc

  -- A function that returns an error succeeds or fails.
  pub answer_cases :
      (r : S × Option Text)
      → ((s : S) × (r ≡ (s, none))) ⊎ ((s : S) × (e : Text) × (r ≡ (s, some e)))
  answer_cases (s, none) = inl (s, refl)
  answer_cases (s, some e) = inr (s, e, refl)

  pub error-ne-none : (s s' : S) (e : Text) → ◌≡◌ {A = S × Option Text} (s, some e) (s', none) → ⊥
  error-ne-none s s' e h = cc

  pub pair_cases :
      {A : Type 0} (r : S × Result A)
      → ((s : S) × (a : A) × (r ≡ (s, ok a))) ⊎ ((s : S) × (e : Text) × (r ≡ (s, failed e)))
  pair_cases (s, ok a) = inl (s, a, refl)
  pair_cases (s, failed e) = inr (s, e, refl)

  -- What `>>=` does with a step's result.
  abbrev pub go_on : {A B : Type 0} → (A → Reader S B) → S × Result A → S × Result B
  go_on f (s, ok a) = f a s
  go_on f (s, failed e) = (s, failed e)

  pub bind-go_on :
      {A B : Type 0} (m : Reader S A) (f : A → Reader S B) (s : S) → ◌>>=◌ m f s ≡ go_on f (m s)
  bind-go_on m f s = elim (pair_cases (m s)) [
    | inl (s₁, a, p) ↦
        ap (λ r. elim r.1 [ ok a ↦ f a r.0 | failed e ↦ (r.0, failed e) ]) p ∙ sym (ap (go_on f) p)
    | inr (s₁, e', p) ↦
        ap (λ r. elim r.1 [ ok a ↦ f a r.0 | failed e ↦ (r.0, failed e) ]) p ∙ sym (ap (go_on f) p)
  ]

  -- A step's value may be anything; what follows it decides.
  pub bind-Returns :
      {A B : Type 0} (Q : B → Type 0) (m : Reader S A) (f : A → Reader S B)
      → ((a : A) → Returns Q (f a))
      → Returns Q (◌>>=◌ m f)
  bind-Returns Q m f h s s' b e = elim (pair_cases (m s)) [
    | inl (s₁, a, p) ↦ h a s₁ s' b (sym (bind-go_on m f s ∙ ap (go_on f) p) ∙ e)
    | inr (s₁, e', p) ↦
        absurd (failed-ne-ok s₁ s' e' b (sym (bind-go_on m f s ∙ ap (go_on f) p) ∙ e))
  ]

  -- What follows a step that gave a value,
  pub bind-ok :
      {A B : Type 0} (m : Reader S A) (f : A → Reader S B) (s s' : S) (a : A)
      → m s ≡ (s', ok a)
      → ◌>>=◌ m f s ≡ f a s'
  bind-ok m f s s' a h = bind-go_on m f s ∙ ap (go_on f) h

  -- and one that failed.
  pub bind-failed :
      {A B : Type 0} (m : Reader S A) (f : A → Reader S B) (s s' : S) (e : Text)
      → m s ≡ (s', failed e)
      → ◌>>=◌ m f s ≡ (s', failed e)
  bind-failed m f s s' e h = bind-go_on m f s ∙ ap (go_on f) h

  -- A result came from what followed the step's value, or is the step's error.
  pub bind-cases :
      {A B : Type 0} (m : Reader S A) (f : A → Reader S B) (s : S) (r : S × Result B)
      → ◌>>=◌ m f s ≡ r
      → ((s' : S) × (a : A) × (m s ≡ (s', ok a)) × (f a s' ≡ r))
        ⊎ ((s' : S) × (e : Text) × (m s ≡ (s', failed e)) × (r ≡ (s', failed e)))
  bind-cases m f s r h = elim (pair_cases (m s)) [
    | inl (s', a, p) ↦ inl (s', a, p, sym (bind-ok m f s s' a p) ∙ h)
    | inr (s', e, p) ↦ inr (s', e, p, sym h ∙ bind-failed m f s s' e p)
  ]

  -- Two steps succeed when both do.
  -- A value came from what followed the step's value.
  pub bind_values :
      {A B : Type 0} (m : Reader S A) (f : A → Reader S B) (s s' : S) (b : B)
      → ◌>>=◌ m f s ≡ (s', ok b)
      → (s₁ : S) × (a : A) × (m s ≡ (s₁, ok a)) × (f a s₁ ≡ (s', ok b))
  bind_values m f s s' b h = elim (bind-cases m f s (s', ok b) h) [
    | inl found ↦ found
    | inr (s₁, e, first, stop) ↦ absurd (failed-ne-ok s₁ s' e b (sym stop))
  ]

  pub >>-cases :
      (m k : Action S) (s s' : S)
      → ◌>>◌ m k s ≡ (s', none)
      → (s₁ : S) × (m s ≡ (s₁, none)) × (k s₁ ≡ (s', none))
  >>-cases m k s s' h = elim (answer_cases (m s)) [
    | inl (s₁, p) ↦ (s₁, p, sym (>>_none m k s s₁ p) ∙ h)
    | inr (s₁, e, p) ↦ absurd (error-ne-none s₁ s' e (sym (>>_some m k s s₁ e p) ∙ h))
  ]

  pub give-Leads : {A : Type 0} (Q : S → A → Type 0) (a : A) → ((s : S) → Q s a) → Leads Q (give a)
  give-Leads Q a q s s' b h = subst (λ r. Q r.0 (or_else a r.1)) h (q s)

  pub bind-Leads :
      {A B : Type 0} (P : S → A → Type 0) (Q : S → B → Type 0) (m : Reader S A) (f : A → Reader S B)
      → Leads P m
      → ((s : S) (a : A) → P s a → (s' : S) (b : B) → f a s ≡ (s', ok b) → Q s' b)
      → Leads Q (◌>>=◌ m f)
  bind-Leads P Q m f p h s s' b e = elim (bind-cases m f s (s', ok b) e) [
    | inl (s₁, a, first, rest) ↦ h s₁ a (p s s₁ a first) s' b rest
    | inr (s₁, e', first, stop) ↦ absurd (failed-ne-ok s₁ s' e' b (sym stop))
  ]

  pub total-Leads :
      {A : Type 0} (Q : S → A → Type 0) (f : S → S × A)
      → ((s : S) → Q (f s).0 (f s).1)
      → Leads Q (total f)
  total-Leads Q f q s s' b h = subst (λ r. Q r.0 (or_else b r.1)) h (q s)

-- A reader that always returns a value, and one that satisfies a predicate.
abbrev pub Gives : {S A : Type 0} → (A → Type 0) → Reader S A → Type 0
Gives {S} {A} Q m = (s : S) → (s' : S) × (a : A) × (m s ≡ (s', ok a)) × Q a

module _ {S : Type 0} where
  pub give-Gives : {A : Type 0} (Q : A → Type 0) (a : A) → Q a → Gives {S = S} Q (give a)
  give-Gives Q a q s = (s, a, refl, q)

  pub total-Gives :
      {A : Type 0} (Q : A → Type 0) (f : S → S × A) → ((s : S) → Q (f s).1) → Gives Q (total f)
  total-Gives Q f q s = ((f s).0, (f s).1, refl, q s)

  pub bind-Gives :
      {A B : Type 0} (P : A → Type 0) (Q : B → Type 0) (m : Reader S A) (f : A → Reader S B)
      → Gives P m
      → ((a : A) → P a → Gives Q (f a))
      → Gives Q (◌>>=◌ m f)
  bind-Gives P Q m f p h s =
      let (s₁, a, first, q) = p s in
      let (s', b, rest, done) = h a q s₁ in (s', b, bind-ok m f s s₁ a first ∙ rest, done)

  pub wrapped-Gives :
      {A : Type 0} (Q : A → Type 0) (wrap : Text → Text) (m : Reader S A)
      → Gives Q m
      → Gives Q (wrapped wrap m)
  wrapped-Gives Q wrap m p s = let (s', a, first, q) = p s in (s', a, ap (on_failure wrap) first, q)

  pub total-Returns :
      {A : Type 0} (Q : A → Type 0) (f : S → S × A) → ((s : S) → Q (f s).1) → Returns Q (total f)
  total-Returns Q f q = total-Leads (λ s. Q) f q

  -- A wrapped step's value is the step's.
  pub wrapped-ok :
      {A : Type 0} (wrap : Text → Text) (m : Reader S A) (s s' : S) (a : A)
      → wrapped wrap m s ≡ (s', ok a)
      → m s ≡ (s', ok a)
  wrapped-ok wrap m s s' a h = elim (pair_cases (m s)) [
    | inl (s₁, b, p) ↦ p ∙ sym (ap (on_failure wrap) p) ∙ h
    | inr (s₁, e, p) ↦ absurd (failed-ne-ok s₁ s' _ a (sym (ap (on_failure wrap) p) ∙ h))
  ]

  -- An attempt that gives a value is of an action without an error.
  pub attempt-ok :
      (wrap : Text → Text) (m : Action S) (s s' : S) (u : Unit)
      → attempt wrap m s ≡ (s', ok u)
      → m s ≡ (s', none)
  attempt-ok wrap m s s' u h = elim (answer_cases (m s)) [
    | inl (s₁, p) ↦ p ∙ ap (λ r. (r.0, none)) (sym (ap (attempted wrap) p) ∙ h)
    | inr (s₁, e, p) ↦ absurd (failed-ne-ok s₁ s' (wrap e) u (sym (ap (attempted wrap) p) ∙ h))
  ]

  pub wrapped-Returns :
      {A : Type 0} (Q : A → Type 0) (wrap : Text → Text) (m : Reader S A)
      → Returns Q m
      → Returns Q (wrapped wrap m)
  wrapped-Returns Q wrap m p s s' a h = p s s' a (wrapped-ok wrap m s s' a h)

  -- What follows a step may use what the step's values satisfy.
  pub then-Returns :
      {A B : Type 0} (P : A → Type 0) (Q : B → Type 0) (m : Reader S A) (f : A → Reader S B)
      → Returns P m
      → ((a : A) → P a → Returns Q (f a))
      → Returns Q (◌>>=◌ m f)
  then-Returns P Q m f p h = bind-Leads (λ s. P) (λ s. Q) m f p (λ s a q. h a q s)
