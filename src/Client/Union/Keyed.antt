-- ===== src/Client/Union/Keyed.antt =====
-- One keyed section of a union: what the map holds, and what its flattened list looks like.
use proxysql_on_k8s.Base.{
  ◌≡◌, ◌≢◌, refl, sym, ◌∙◌, inl, inr, Bool, true, false, List, [], ◌∷◌, ◌++◌, Option, none, some,
  map, All, In, arith, Eq, ◌==◌, if◌then◌else◌, Option-cases,
}
use proxysql_on_k8s.Base.Dict.{Dict, keys, lookup, insert, NodupKeys}
use proxysql_on_k8s.Base.Dict.Laws.{lookup-insert, In-keys, insert-NodupKeys}
use proxysql_on_k8s.Base.Sort
use proxysql_on_k8s.Base.Sort.{sort, IsSorted, IsTotalOrder}
use proxysql_on_k8s.Base.Sort.Laws.{In-sort, sort-IsSorted, In-insert}
use proxysql_on_k8s.Client.Union.{put_all, values_at, flatten}

module _ {K V : Type 0} ⦃e : Eq K⦄ (key : V → K) where
  -- The last entry of a list that has the key, and the first.
  abbrev pub last_with : K → List V → Option V
  last_with k [] = none
  last_with k (v ∷ vs) = elim (last_with k vs) [
    | some w ↦ some w
    | none ↦ if key v == k then some v else none
  ]

  abbrev pub first_with : K → List V → Option V
  first_with k [] = none
  first_with k (v ∷ vs) = if key v == k then some v else first_with k vs

  pub lookup-put_all :
      (k : K) (vs : List V) (m : Dict K V)
      → lookup k (put_all key vs m) ≡ elim (last_with k vs) [ some w ↦ some w | none ↦ lookup k m ]
  unfolding put_all
  lookup-put_all k [] m = refl
  lookup-put_all k (v ∷ vs) m =
      ground (arith, lookup-put_all k vs (insert (key v) v m), lookup-insert k (key v) v m)

  pub put_all-append :
      (vs ws : List V) (m : Dict K V) → put_all key (vs ++ ws) m ≡ put_all key ws (put_all key vs m)
  unfolding put_all
  put_all-append [] ws m = refl
  put_all-append (v ∷ vs) ws m = put_all-append vs ws (insert (key v) v m)

  -- Every value stands under its own key, and no key stands twice.
  pub record IsKeyed (m : Dict K V) : Type 0 where
    pub keyed : (k : K) (v : V) → lookup k m ≡ some v → key v ≡ k
    pub nodup : NodupKeys m

  pub put_all-IsKeyed : (vs : List V) (m : Dict K V) → IsKeyed m → IsKeyed (put_all key vs m)
  unfolding put_all
  put_all-IsKeyed [] m h = h
  put_all-IsKeyed (v ∷ vs) m h = put_all-IsKeyed vs (insert (key v) v m) record {
    keyed = λ k w found. ground (arith, lookup-insert k (key v) v m, h.keyed k w);
    nodup = insert-NodupKeys (key v) v m h.nodup;
  }

  pub nil-IsKeyed : IsKeyed []
  nil-IsKeyed = record { keyed = λ k v h. unfold lookup in (cc); nodup = tt }

  values_at_found :
      (k : K) (ks : List K) (m : Dict K V) (v : V)
      → lookup k m ≡ some v
      → values_at (k ∷ ks) m ≡ v ∷ values_at ks m
  unfolding values_at
  values_at_found k ks m v found = ground arith

  values_at_absent :
      (k : K) (ks : List K) (m : Dict K V)
      → lookup k m ≡ none
      → values_at (k ∷ ks) m ≡ values_at ks m
  unfolding values_at
  values_at_absent k ks m absent = ground arith

  map-values_at :
      (ks : List K) (m : Dict K V)
      → IsKeyed m
      → ((k : K) → In k ks → lookup k m ≢ none)
      → map key (values_at ks m) ≡ ks
  map-values_at [] m h present = unfold values_at in refl
  map-values_at (k ∷ ks) m h present = elim (Option-cases (lookup k m)) [
    | inl absent ↦ absurd (present k (inl refl) absent)
    | inr (v, found) ↦
        rw (values_at_found k ks m v found)
          (ground (arith, h.keyed k v found, map-values_at ks m h (λ j i. present j (inr i))))
  ]

  first_with-values_at :
      (k : K) (ks : List K) (m : Dict K V) (v : V)
      → IsKeyed m
      → lookup k m ≡ some v
      → In k ks
      → first_with k (values_at ks m) ≡ some v
  first_with-values_at k [] m v h found i = absurd i
  first_with-values_at k (j ∷ ks) m v h found i = elim (Option-cases (lookup j m)) [
    | inl absent ↦
        rw (values_at_absent j ks m absent) (first_with-values_at k ks m v h found (ground arith))
    | inr (w, e') ↦
        rw (values_at_found j ks m w e')
          (ground (arith, h.keyed j w e', first_with-values_at k ks m v h found))
  ]

  first_with-values_at_absent :
      (k : K) (ks : List K) (m : Dict K V)
      → IsKeyed m
      → lookup k m ≡ none
      → first_with k (values_at ks m) ≡ none
  first_with-values_at_absent k [] m h absent = unfold values_at in refl
  first_with-values_at_absent k (j ∷ ks) m h absent = elim (Option-cases (lookup j m)) [
    | inl e' ↦ rw (values_at_absent j ks m e') (first_with-values_at_absent k ks m h absent)
    | inr (v, e') ↦
        rw (values_at_found j ks m v e')
          (ground (arith, h.keyed j v e', first_with-values_at_absent k ks m h absent))
  ]

  -- The first entry with a key in the flattened list is the map's.
  pub first_with-flatten :
      (less : K → K → Bool) (k : K) (m : Dict K V)
      → IsKeyed m
      → first_with k (flatten less m) ≡ lookup k m
  unfolding flatten
  first_with-flatten less k m h = elim (Option-cases (lookup k m)) [
    | inl absent ↦ first_with-values_at_absent k (sort less (keys m)) m h absent ∙ sym absent
    | inr (v, found) ↦
        first_with-values_at k (sort less (keys m)) m v h found
          ((In-sort less k (keys m)).1 ((In-keys k m).1 (rw found (cc))))
        ∙ sym found
  ]

  pub map-flatten :
      (less : K → K → Bool) (m : Dict K V)
      → IsKeyed m
      → map key (flatten less m) ≡ sort less (keys m)
  unfolding flatten
  map-flatten less m h =
      map-values_at (sort less (keys m)) m h
        (λ k i. (In-keys k m).0 ((In-sort less k (keys m)).0 i))

-- Each later element is greater.
abbrev pub IsAscending : {K : Type 0} → (K → K → Bool) → List K → Type 0
IsAscending less [] = Unit
IsAscending less (k ∷ ks) = All (λ j. less k j ≡ true) ks × IsAscending less ks

abbrev Distinct : {K : Type 0} → List K → Type 0
Distinct [] = Unit
Distinct (k ∷ ks) = (¬ In k ks) × Distinct ks

module _ {K : Type 0} (less : K → K → Bool) (t : IsTotalOrder less) where
  ascends :
      (k : K) (ks : List K)
      → All (λ j. less j k ≡ false) ks
      → (¬ In k ks)
      → All (λ j. less k j ≡ true) ks
  ascends k [] h n = tt
  ascends k (j ∷ ks) (h, hs) n = (ground (arith, t.connex k j, n), ascends k ks hs (λ i. n (inr i)))

  sorted-IsAscending : (ks : List K) → IsSorted less ks → Distinct ks → IsAscending less ks
  sorted-IsAscending [] h d = tt
  sorted-IsAscending (k ∷ ks) h d = (ascends k ks h.0 d.0, sorted-IsAscending ks h.1 d.1)

  insert-Distinct :
      (k : K) (ks : List K) → (¬ In k ks) → Distinct ks → Distinct (Sort.insert less k ks)
  unfolding Sort.insert
  insert-Distinct k [] n d = ((λ i. i), tt)
  insert-Distinct k (j ∷ ks) n d = ground (arith, insert-Distinct k ks, In-insert less j k ks, n)

  sort-Distinct : (ks : List K) → Distinct ks → Distinct (sort less ks)
  unfolding sort
  sort-Distinct [] d = tt
  sort-Distinct (k ∷ ks) d =
      insert-Distinct k (sort less ks) (λ i. d.0 ((In-sort less k ks).0 i)) (sort-Distinct ks d.1)

  keys-Distinct : {V : Type 0} ⦃e : Eq K⦄ (m : Dict K V) → NodupKeys m → Distinct (keys m)
  unfolding keys
  keys-Distinct [] h = tt
  keys-Distinct ((k, v) ∷ m) h = ((λ i. (In-keys k m).0 i h.0), keys-Distinct m h.1)

  -- A flattened section stands in the order of its keys, each key once.
  pub flatten-IsAscending :
      {V : Type 0} ⦃e : Eq K⦄ (key : V → K) (m : Dict K V)
      → IsKeyed key m
      → IsAscending less (map key (flatten less m))
  flatten-IsAscending key m h = rw (map-flatten key less m h) (
      sorted-IsAscending (sort less (keys m)) (sort-IsSorted less t.weak (keys m))
        (sort-Distinct (keys m) (keys-Distinct m h.nodup)))
