-- ===== src/Client/Classes/Forest.antt =====
-- The map `parent` stands for a function that sends each hostgroup to the smallest of its class.
-- `find` computes that function and keeps it; `link` changes it as one pair asks.
use proxysql_on_k8s.Base.{
  ℕ, zero, suc, ◌≤◌, ◌<◌, ◌≡◌, ◌≢◌, refl, ◌⊎◌, inl, inr, true, false, [], ◌∷◌, none, some, length,
  Option-cases, if◌then◌else◌, arith,
}
use proxysql_on_k8s.Base.Int.{ℤ, ltb_ℤ, int_eq, int_order}
use proxysql_on_k8s.Base.Dict.{lookup, insert}
use proxysql_on_k8s.Base.Dict.Laws.{lookup-insert}
use proxysql_on_k8s.Client.Classes.{Parents, find, find_root}

abbrev pub IsKey : ℤ → Parents → Type 0
IsKey x m = lookup x m ≢ none

pub record Represents (m : Parents) (f : ℤ → ℤ) : Type 0 where
  pub absent : (x : ℤ) → lookup x m ≡ none → f x ≡ x
  pub along : (x p : ℤ) → lookup x m ≡ some p → f p ≡ f x
  pub self : (x : ℤ) → lookup x m ≡ some x → f x ≡ x
  pub down : (x p : ℤ) → lookup x m ≡ some p → p ≢ x → ltb_ℤ p x ≡ true
  pub closed : (x p : ℤ) → lookup x m ≡ some p → IsKey p m
  pub idem : (x : ℤ) → f (f x) ≡ f x
  pub least : (x : ℤ) → ltb_ℤ x (f x) ≡ false

-- The number of keys below `x`, which falls from a hostgroup to its parent.
below : ℤ → Parents → ℕ
below x [] = 0
below x ((k, v) ∷ m) = if ltb_ℤ k x then suc (below x m) else below x m

below-le : (x : ℤ) (m : Parents) → below x m ≤ length m
unfolding below
below-le x [] = omega arith
below-le x ((k, v) ∷ m) = ground (arith, below-le x m)

below_mono : (p x : ℤ) (m : Parents) → ltb_ℤ p x ≡ true → below p m ≤ below x m
unfolding below
below_mono p x [] h = omega arith
below_mono p x ((k, v) ∷ m) h = ground (arith, below_mono p x m h)

below-lt : (p x : ℤ) (m : Parents) → ltb_ℤ p x ≡ true → IsKey p m → below p m < below x m
unfolding below lookup
below-lt p x [] h k = absurd (k refl)
below-lt p x ((j, v) ∷ m) h k = ground (arith, below-lt p x m h, below_mono p x m h)

find_absent :
    (fuel : ℕ) (x : ℤ) (m : Parents) → lookup x m ≡ none → find (suc fuel) x m ≡ (x, insert x x m)
unfolding find
find_absent fuel x m e = ground arith

find_self :
    (fuel : ℕ) (x p : ℤ) (m : Parents) → lookup x m ≡ some p → p ≡ x → find (suc fuel) x m ≡ (x, m)
unfolding find
find_self fuel x p m e same = ground arith

find_up :
    (fuel : ℕ) (x p : ℤ) (m : Parents)
    → lookup x m ≡ some p
    → p ≢ x
    → find (suc fuel) x m ≡ ((find fuel p m).0, insert x (find fuel p m).0 (find fuel p m).1)
unfolding find
find_up fuel x p m e differ = ground arith

-- What a call of `find` returns and leaves.
pub record Found (m : Parents) (f : ℤ → ℤ) (x : ℤ) (r : ℤ) (m' : Parents) : Type 0 where
  pub root : r ≡ f x
  pub represents : Represents m' f
  pub is_key : IsKey (f x) m'
  pub visited : IsKey x m'
  pub kept : (y : ℤ) → IsKey y m → IsKey y m'
  pub only : (y : ℤ) → IsKey y m' → IsKey y m ⊎ (y ≡ x)

module _ (f : ℤ → ℤ) where
  -- A hostgroup that is seen for the first time is its own root.
  insert_absent :
      (m : Parents) (x : ℤ) → Represents m f → lookup x m ≡ none → Found m f x x (insert x x m)
  insert_absent m x r e = record {
    root = ground (arith, r.absent x);
    represents = record {
      absent = λ y h. ground (arith, lookup-insert y x x m, r.absent y);
      along = λ y p h. ground (arith, lookup-insert y x x m, r.along y p);
      self = λ y h. ground (arith, lookup-insert y x x m, r.self y, r.absent x);
      down = λ y p h. ground (arith, lookup-insert y x x m, r.down y p);
      closed = λ y p h. ground (arith, lookup-insert y x x m, lookup-insert p x x m, r.closed y p);
      idem = r.idem;
      least = r.least;
    };
    is_key = ground (arith, r.absent x, lookup-insert x x x m, lookup-insert (f x) x x m);
    visited = ground (arith, lookup-insert x x x m);
    kept = λ y h. ground (arith, lookup-insert y x x m);
    only = λ y h. ground (arith, lookup-insert y x x m);
  }

  -- Pointing a hostgroup at its root keeps the function.
  insert_root :
      (m : Parents) (x : ℤ)
      → Represents m f
      → IsKey x m
      → IsKey (f x) m
      → f x ≢ x
      → Represents (insert x (f x) m) f
  insert_root m x r k kr ne = record {
    absent = λ y h. ground (arith, lookup-insert y x (f x) m, r.absent y);
    along = λ y p h. ground (arith, lookup-insert y x (f x) m, r.along y p, r.idem x);
    self = λ y h. ground (arith, lookup-insert y x (f x) m, r.self y);
    down = λ y p h.
        ground (arith, lookup-insert y x (f x) m, r.down y p, r.least x, int_order.connex x (f x));
    closed =
        λ y p h. ground (arith, lookup-insert y x (f x) m, lookup-insert p x (f x) m, r.closed y p);
    idem = r.idem;
    least = r.least;
  }

  -- Shortening the path of `x` after its parent's root has been found.
  shorten :
      (m : Parents) (x p : ℤ) (root : ℤ) (m' : Parents)
      → Represents m f
      → lookup x m ≡ some p
      → p ≢ x
      → Found m f p root m'
      → Found m f x root (insert x root m')
  shorten m x p root m' r e ne found = record {
    root = same;
    represents = rw same (insert_root m' x found.represents key key_root differs);
    is_key = ground (arith, lookup-insert (f x) x root m', found.is_key, r.along x p);
    visited = ground (arith, lookup-insert x x root m');
    kept = λ y h. ground (arith, lookup-insert y x root m', found.kept y);
    only = λ y h. ground (arith, lookup-insert y x root m', found.only y, r.closed x p);
  }
    where
      same : root ≡ f x
      same = ground (arith, found.root, r.along x p)

      key : IsKey x m'
      key = found.kept x (ground arith)

      key_root : IsKey (f x) m'
      key_root = ground (arith, found.is_key, r.along x p)

      differs : f x ≢ x
      differs h = ground (arith, r.along x p, r.down x p, r.least p)

  -- The entry of a root is its own parent.
  found_self : (m : Parents) (x : ℤ) → Represents m f → lookup x m ≡ some x → Found m f x x m
  found_self m x r e = record {
    root = ground (arith, r.self x);
    represents = r;
    is_key = ground (arith, r.self x);
    visited = ground arith;
    kept = λ y h. h;
    only = λ y h. inl h;
  }

  find_lem :
      (fuel : ℕ) (x : ℤ) (m : Parents)
      → Represents m f
      → below x m < fuel
      → Found m f x (find fuel x m).0 (find fuel x m).1
  find_lem zero x m r h = elim h [ ]
  find_lem (suc fuel) x m r h = elim (Option-cases (lookup x m)) [
    | inl e ↦ rw (find_absent fuel x m e) (insert_absent m x r e)
    | inr (p, e) ↦ elim (int_eq.dec p x) [
      | yes same ↦ rw (find_self fuel x p m e same) (found_self m x r (ground arith))
      | no differ ↦ rw (find_up fuel x p m e differ) (
          shorten m x p _ _ r e differ (
            find_lem fuel p m r
              (omega (arith, below-lt p x m (r.down x p e differ) (r.closed x p e)))))
    ]
  ]

  -- On a map of parents that represents a function of hostgroups, the fuel that the code's calls are
  -- given is enough: the root that is found is the function's value, and the map that is left
  -- represents the same function and has the keys that it had, the hostgroup that was asked for and
  -- no other.
  pub find_root_lem :
      (x : ℤ) (m : Parents) → Represents m f → Found m f x (find_root x m).0 (find_root x m).1
  find_root_lem x m r = find_lem (suc (length m)) x m r (omega (arith, below-le x m))
