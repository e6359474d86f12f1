-- ===== src/Client/Classes/Merge.antt =====
-- What the loop over the pairs does to the function that `parent` stands for.
use proxysql_on_k8s.Base.{
  ◌≡◌, ◌⊎◌, inl, inr, true, List, [], ◌∷◌, ◌==◌, if◌then◌else◌, arith, Bool-cases,
}
use proxysql_on_k8s.Base.Int.{ℤ, ltb_ℤ, int_eq, int_order}
use proxysql_on_k8s.Base.Dict.{insert}
use proxysql_on_k8s.Base.Dict.Laws.{lookup-insert}
use proxysql_on_k8s.Client.Types.{MySqlReplicationHostgroup}
use proxysql_on_k8s.Client.Classes.{Parents, find_root, link}
use proxysql_on_k8s.Client.Classes.Forest.{IsKey, Represents, find_root_lem}

-- The class of `hi` is joined to that of `lo`.
abbrev pub redirect : ℤ → ℤ → (ℤ → ℤ) → ℤ → ℤ
redirect hi lo f y = if f y == hi then lo else f y

abbrev pub merge : ℤ → ℤ → (ℤ → ℤ) → ℤ → ℤ
merge w r f =
    if f w == f r
    then f
    else if ltb_ℤ (f r) (f w)
    then redirect (f w) (f r) f
    else redirect (f r) (f w) f

abbrev pub merge_all : List MySqlReplicationHostgroup → (ℤ → ℤ) → ℤ → ℤ
merge_all [] f = f
merge_all (p ∷ pairs) f = merge_all pairs (merge p.writer_hostgroup p.reader_hostgroup f)

redirect-Represents :
    (m : Parents) (f : ℤ → ℤ) (hi lo : ℤ)
    → Represents m f
    → IsKey hi m
    → IsKey lo m
    → f hi ≡ hi
    → f lo ≡ lo
    → ltb_ℤ lo hi ≡ true
    → Represents (insert hi lo m) (redirect hi lo f)
redirect-Represents m f hi lo r khi klo ehi elo lt = record {
  absent = λ y h. ground (arith, lookup-insert y hi lo m, r.absent y);
  along = λ y p h. ground (arith, lookup-insert y hi lo m, r.along y p);
  self = λ y h. ground (arith, lookup-insert y hi lo m, r.self y);
  down = λ y p h. ground (arith, lookup-insert y hi lo m, r.down y p);
  closed = λ y p h. ground (arith, lookup-insert y hi lo m, lookup-insert p hi lo m, r.closed y p);
  idem = λ y. ground (arith, r.idem y);
  least =
      λ y. ground (arith, r.least y, int_order.weak.asym lo hi, int_order.weak.neg_trans y hi lo);
}

-- The map after both finds, with their roots joined.
abbrev joined : ℤ → ℤ → Parents → Parents
joined a b m = if a == b then m else if ltb_ℤ b a then insert a b m else insert b a m

joined-Represents :
    (m : Parents) (f : ℤ → ℤ) (w r : ℤ)
    → Represents m f
    → IsKey (f w) m
    → IsKey (f r) m
    → Represents (joined (f w) (f r) m) (merge w r f)
joined-Represents m f w r s kw kr = elim (Bool-cases (f w == f r)) [
  | inl e ↦ rw e s
  | inr ne ↦ rw ne (elim (Bool-cases (ltb_ℤ (f r) (f w))) [
    | inl less ↦ rw less (redirect-Represents m f (f w) (f r) s kw kr (s.idem w) (s.idem r) less)
    | inr not_less ↦ rw not_less (
        redirect-Represents m f (f r) (f w) s kr kw (s.idem r) (s.idem w)
          (ground (arith, int_order.connex (f w) (f r))))
  ])
]

IsKey-joined :
    (a b y : ℤ) (m : Parents) → IsKey a m → IsKey b m → IsKey y (joined a b m) → IsKey y m
IsKey-joined a b y m ka kb k = ground (arith, lookup-insert y a b m, lookup-insert y b a m)

IsKey-joined_of : (a b y : ℤ) (m : Parents) → IsKey y m → IsKey y (joined a b m)
IsKey-joined_of a b y m k = ground (arith, lookup-insert y a b m, lookup-insert y b a m)

-- What one round leaves.
pub record Linked (m : Parents) (f : ℤ → ℤ) (p : MySqlReplicationHostgroup) (m' : Parents)
    : Type 0 where
  pub represents : Represents m' (merge p.writer_hostgroup p.reader_hostgroup f)
  pub kept : (y : ℤ) → IsKey y m → IsKey y m'
  pub writer : IsKey p.writer_hostgroup m'
  pub reader : IsKey p.reader_hostgroup m'
  pub only :
      (y : ℤ) → IsKey y m' → IsKey y m ⊎ ((y ≡ p.writer_hostgroup) ⊎ (y ≡ p.reader_hostgroup))

pub link-Linked :
    (m : Parents) (f : ℤ → ℤ) (p : MySqlReplicationHostgroup)
    → Represents m f
    → Linked m f p (link p m)
unfolding link
link-Linked m f p r =
    let w = p.writer_hostgroup in
    let q = p.reader_hostgroup in
    let m₁ = (find_root w m).1 in
    let m₂ = (find_root q m₁).1 in
    let found_w = find_root_lem f w m r in
    let found_q = find_root_lem f q m₁ found_w.represents in
    let key_w = found_q.kept (f w) found_w.is_key in
    rw (found_w.root, found_q.root)
      record {
        represents = joined-Represents m₂ f w q found_q.represents key_w found_q.is_key;
        kept = λ y h. IsKey-joined_of (f w) (f q) y m₂ (found_q.kept y (found_w.kept y h));
        writer = IsKey-joined_of (f w) (f q) w m₂ (found_q.kept w found_w.visited);
        reader = IsKey-joined_of (f w) (f q) q m₂ found_q.visited;
        only = λ y h. ground (
          arith,
          found_q.only y (IsKey-joined (f w) (f q) y m₂ key_w found_q.is_key h),
          found_w.only y,
        );
      }
