-- ===== src/Restart/Verdict/Laws.antt =====
-- When a change is pushed without a restart.
use proxysql_on_k8s.Base.{
  ◌≡◌, ◌≢◌, ◌↔◌, ◌⊎◌, inl, inr, refl, sym, ap, ◌∙◌, Bool, true, false, ◌||◌, List, [], ◌∷◌, ◌++◌,
  Option, none, some, In, In-append_left, In-append_right, ◌==◌, text_eq, Bool-cases, Option-cases,
  arith,
}
use proxysql_on_k8s.Base.Dict.{Dict, keys, lookup, insert, is_set}
use proxysql_on_k8s.Base.Dict.Laws.{In-keys, is_set-insert}
use proxysql_on_k8s.Base.Sort.{sort}
use proxysql_on_k8s.Base.Sort.Laws.{sort_nil}
use proxysql_on_k8s.Base.Text.{Text, text_ltb}
use proxysql_on_k8s.Restart.Verdict.{
  Data, differs, check_keys, diff_non_cnf_keys, differ_at, proxysql_cnf_key,
}

differ_at_same : (o n : Option Text) → (differ_at o n ≡ false) ↔ (o ≡ n)
differ_at_same none none = ground arith
differ_at_same none (some w) = ground arith
differ_at_same (some v) none = ground arith
differ_at_same (some v) (some w) = ground arith

cons_not_nil : {A : Type 0} {x : A} {xs : List A} → x ∷ xs ≡ [] → ⊥
cons_not_nil h = cc

is_set-insert_other :
    (j k : Text) (seen : Dict Text Bool)
    → j ≢ k
    → is_set k (insert j true seen) ≡ true
    → is_set k seen ≡ true
is_set-insert_other j k seen n h = ground (arith, is_set-insert k j seen)

module _ (old new : Data) where
  abbrev skipped : Text → Dict Text Bool → Bool
  skipped j seen = j == proxysql_cnf_key || is_set j seen

  not_skipped : (j : Text) (seen : Dict Text Bool) → skipped j seen ≡ false → j ≢ proxysql_cnf_key
  not_skipped j seen s = ground arith

  skipped-is_set :
      (j k : Text) (seen : Dict Text Bool)
      → j ≡ k
      → k ≢ proxysql_cnf_key
      → skipped j seen ≡ true
      → is_set k seen ≡ true
  skipped-is_set j k seen e n s = let s' : skipped k seen ≡ true = rw e at s in ground arith

  -- What the loop of `diffNonCnfKeys` finds nothing of: a difference at a key that is not skipped.
  check_keys_none :
      (ks : List Text) (seen : Dict Text Bool)
      → check_keys old new ks seen ≡ []
      → (k : Text) → k ≢ proxysql_cnf_key
      → In k ks
      → (is_set k seen ≡ true) ⊎ (differs old new k ≡ false)
  unfolding check_keys
  check_keys_none [] seen h k n i = absurd i
  check_keys_none (j ∷ ks) seen h k n i = elim (Bool-cases (skipped j seen)) [
    | inl s ↦ elim i [
      | inl e ↦ inl (skipped-is_set j k seen e n s)
      | inr i' ↦ check_keys_none ks seen (rw s at h) k n i'
    ]
    | inr s ↦ elim (Bool-cases (differs old new j)) [
      | inl d ↦ absurd (cons_not_nil (rw (s, d) at h))
      | inr d ↦ elim (text_eq.dec j k) [
        | yes e ↦ inr (rw e at d)
        | no m ↦ elim i [
          | inl e ↦ absurd (m e)
          | inr i' ↦ elim (check_keys_none ks (insert j true seen) (rw (s, d) at h) k n i') [
            | inl t ↦ inl (is_set-insert_other j k seen m t)
            | inr t ↦ inr t
          ]
        ]
      ]
    ]
  ]

  check_keys_all :
      (ks : List Text) (seen : Dict Text Bool)
      → ((k : Text) → k ≢ proxysql_cnf_key → differs old new k ≡ false)
      → check_keys old new ks seen ≡ []
  unfolding check_keys
  check_keys_all [] seen h = refl
  check_keys_all (j ∷ ks) seen h = elim (Bool-cases (skipped j seen)) [
    | inl s ↦ rw s (check_keys_all ks seen h)
    | inr s ↦ rw (s, h j (not_skipped j seen s)) (check_keys_all ks (insert j true seen) h)
  ]

  In-both : (k : Text) → (lookup k old ≡ lookup k new) ⊎ In k (keys old ++ keys new)
  In-both k = elim (Option-cases (lookup k old)) [
    | inl e ↦ elim (Option-cases (lookup k new)) [
      | inl f ↦ inl (e ∙ sym f)
      | inr (w, f) ↦ inr (In-append_right k (keys old) (keys new) ((In-keys k new).1 (λ n. cc)))
    ]
    | inr (v, e) ↦ inr (In-append_left k (keys old) (keys new) ((In-keys k old).1 (λ n. cc)))
  ]

  nothing_seen : (k : Text) → is_set k [] ≡ true → ⊥
  unfolding is_set lookup
  nothing_seen k h = ground arith

  -- No key but proxysql.cnf differs exactly when the report is empty.
  pub diff_non_cnf_keys_nil :
      (diff_non_cnf_keys old new ≡ [])
      ↔ ((k : Text) → k ≢ proxysql_cnf_key → lookup k old ≡ lookup k new)
  unfolding diff_non_cnf_keys
  diff_non_cnf_keys_nil = (
    λ h k n. elim (In-both k) [
      | inl e ↦ e
      | inr i ↦ elim (check_keys_none (keys old ++ keys new) [] (sort_nil text_ltb _ h) k n i) [
        | inl s ↦ absurd (nothing_seen k s)
        | inr d ↦ (differ_at_same (lookup k old) (lookup k new)).0 d
      ]
    ],
    λ h.
        ap (sort text_ltb) (
          check_keys_all (keys old ++ keys new) []
            (λ k n. (differ_at_same (lookup k old) (lookup k new)).1 (h k n)))
        ∙ unfold sort in refl,
  )
