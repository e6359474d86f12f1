-- ===== src/Base/Dict/Laws.antt =====
-- The laws of maps.
use mathlib.Core.List.{List, [], ◌∷◌}
use mathlib.Core.Option.{none, some}
use mathlib.Core.Path.{◌≡◌, refl}
use mathlib.Core.Logic.{◌↔◌, ◌≢◌}
use mathlib.Core.Bool.{Bool, true, ◌||◌}
use native.Mathlib.Omega.{arith}
use proxysql_on_k8s.Base.Tests.{if◌then◌else◌}
use proxysql_on_k8s.Base.Equality.{Eq, ◌==◌, contains}
use proxysql_on_k8s.Base.Lists.{In}
use proxysql_on_k8s.Base.Dict.{Dict, keys, lookup, insert, erase, copy, NodupKeys, is_set, set_all}

module _ {K V : Type 0} ⦃e : Eq K⦄ where
  pub lookup-insert :
      (j k : K) (v : V) (m : Dict K V)
      → lookup j (insert k v m) ≡ (if k == j then some v else lookup j m)
  unfolding lookup insert
  lookup-insert j k v [] = refl
  lookup-insert j k v ((i, w) ∷ m) = ground (arith, lookup-insert j k v m)

  pub lookup-erase :
      (j k : K) (m : Dict K V) → lookup j (erase k m) ≡ (if k == j then none else lookup j m)
  unfolding lookup erase
  lookup-erase j k [] = ground arith
  lookup-erase j k ((i, w) ∷ m) = ground (arith, lookup-erase j k m)

  pub In-keys : (k : K) (m : Dict K V) → In k (keys m) ↔ (lookup k m ≢ none)
  unfolding keys lookup
  In-keys k [] = ground arith
  In-keys k ((j, v) ∷ m) = ground (arith, In-keys k m)

  pub insert-NodupKeys : (k : K) (v : V) (m : Dict K V) → NodupKeys m → NodupKeys (insert k v m)
  unfolding insert lookup
  insert-NodupKeys k v [] h = (refl, tt)
  insert-NodupKeys k v ((j, w) ∷ m) h =
      ground (arith, insert-NodupKeys k v m h.1, lookup-insert j k v m)

  -- Of a key that both maps hold, the copied one's value stands.
  pub lookup-copy :
      (j : K) (dst src : Dict K V)
      → NodupKeys src
      → lookup j (copy dst src) ≡ elim (lookup j src) [ some v ↦ some v | none ↦ lookup j dst ]
  unfolding copy lookup
  lookup-copy j dst [] h = refl
  lookup-copy j dst ((k, v) ∷ src) h =
      ground (arith, lookup-copy j (insert k v dst) src h.1, lookup-insert j k v dst)

  pub lookup-copy_nil : (k : K) (m : Dict K V) → NodupKeys m → lookup k (copy [] m) ≡ lookup k m
  unfolding lookup
  lookup-copy_nil k m h = ground (arith, lookup-copy k [] m h)

  pub lookup-copy-none :
      (k : K) (dst src : Dict K V)
      → lookup k dst ≡ none
      → lookup k src ≡ none
      → lookup k (copy dst src) ≡ none
  unfolding copy lookup
  lookup-copy-none k dst [] h h' = h
  lookup-copy-none k dst ((j, v) ∷ src) h h' =
      ground (arith, lookup-copy-none k (insert j v dst) src, lookup-insert k j v dst, h, h')

  pub copy-NodupKeys : (dst src : Dict K V) → NodupKeys dst → NodupKeys (copy dst src)
  unfolding copy
  copy-NodupKeys dst [] h = h
  copy-NodupKeys dst ((k, v) ∷ src) h =
      copy-NodupKeys (insert k v dst) src (insert-NodupKeys k v dst h)

module _ {K : Type 0} ⦃e : Eq K⦄ where
  pub is_set-set_all :
      (k : K) (ks : List K) (m : Dict K Bool)
      → is_set k (set_all ks m) ≡ (contains ks k || is_set k m)
  unfolding is_set set_all
  is_set-set_all k [] m = refl
  is_set-set_all k (j ∷ ks) m =
      ground (arith, is_set-set_all k ks (insert j true m), lookup-insert k j true m)

  pub is_set-set_all_nil : (k : K) (ks : List K) → is_set k (set_all ks []) ≡ contains ks k
  unfolding is_set lookup
  is_set-set_all_nil k ks = ground (arith, is_set-set_all k ks [])

  pub is_set-insert :
      (k j : K) (m : Dict K Bool) → is_set k (insert j true m) ≡ (j == k || is_set k m)
  unfolding is_set
  is_set-insert k j m = ground (arith, lookup-insert k j true m)
