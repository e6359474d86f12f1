-- ===== src/Config/Union/Laws.antt =====
-- What the union for a cluster holds.
use proxysql_on_k8s.Api.{ProxySqlConfig}
use proxysql_on_k8s.Base.{◌≡◌, refl, Bool, List, [], ◌∷◌, Option, none, some, text_eq}
use proxysql_on_k8s.Base.Calls.{Reader, ok, wrapped}
use proxysql_on_k8s.Base.Calls.Returns.{
  Returns, give-Returns, bind-Returns, then-Returns, wrapped-Returns,
}
use proxysql_on_k8s.Base.Dict.{Dict, lookup, copy}
use proxysql_on_k8s.Base.Dict.Laws.{lookup-copy-none}
use proxysql_on_k8s.Base.Text.{Text}
use proxysql_on_k8s.Client.Types.{Desired, ProxySqlServer}
use proxysql_on_k8s.Client.Union.{Merged, nothing_merged, merge_one, merge_all, flatten_all, union}
use proxysql_on_k8s.Config.Desired.{Secrets, config_to_desired}
use proxysql_on_k8s.Config.Desired.Laws.{
  monitor_names, LacksAll, OwnsNothing, config_to_desired-OwnsNothing,
}
use proxysql_on_k8s.Config.Union.{
  ClusterView, selected, with_peers, if_no_peers, is_any, desireds_of, union_selected,
  build_unioned_desired,
}

copy-LacksAll :
    (ks : List Text) (dst src : Dict Text Text)
    → LacksAll ks dst
    → LacksAll ks src
    → LacksAll ks (copy dst src)
copy-LacksAll [] dst src h h' = tt
copy-LacksAll (k ∷ ks) dst src h h' =
    (lookup-copy-none k dst src h.0 h'.0, copy-LacksAll ks dst src h.1 h'.1)

nothing-LacksAll : (ks : List Text) → LacksAll ks []
unfolding lookup
nothing-LacksAll [] = tt
nothing-LacksAll (k ∷ ks) = (refl, nothing-LacksAll ks)

abbrev pub NoneOwns : List (Option Desired) → Type 0
NoneOwns [] = Unit
NoneOwns (none ∷ ds) = NoneOwns ds
NoneOwns (some d ∷ ds) = OwnsNothing d × NoneOwns ds

merge_all-OwnsNothing :
    (ds : List (Option Desired)) (m : Merged)
    → OwnsNothing (flatten_all m)
    → NoneOwns ds
    → OwnsNothing (flatten_all (merge_all ds m))
unfolding merge_all merge_one flatten_all
merge_all-OwnsNothing [] m h hs = h
merge_all-OwnsNothing (none ∷ ds) m h hs = merge_all-OwnsNothing ds m h hs
merge_all-OwnsNothing (some d ∷ ds) m (a, b, c) ((a', b', c'), hs) =
    merge_all-OwnsNothing ds (merge_one d m)
      (
        copy-LacksAll monitor_names m.admin_vars d.admin_variables a a',
        copy-LacksAll monitor_names m.mysql_vars d.mysql_variables b b',
        copy-LacksAll monitor_names m.pg_vars d.pgsql_variables c c',
      )
      hs

union-OwnsNothing : (ds : List (Option Desired)) → NoneOwns ds → OwnsNothing (union ds)
unfolding union flatten_all
union-OwnsNothing ds h =
    merge_all-OwnsNothing ds nothing_merged
      (
        nothing-LacksAll monitor_names,
        nothing-LacksAll monitor_names,
        nothing-LacksAll monitor_names,
      )
      h

module _ (cluster : ClusterView) where
  if_no_peers-OwnsNothing :
      (servers : List ProxySqlServer) (d : Desired)
      → OwnsNothing d
      → OwnsNothing (if_no_peers cluster servers d)
  unfolding if_no_peers
  if_no_peers-OwnsNothing [] d h = h
  if_no_peers-OwnsNothing (s ∷ servers) d h = h

  module _ (K : Secrets) where
    desireds_of-NoneOwns : (cs : List ProxySqlConfig) → Returns NoneOwns (desireds_of cluster K cs)
    unfolding desireds_of
    desireds_of-NoneOwns [] = give-Returns NoneOwns [] tt
    desireds_of-NoneOwns (c ∷ cs) =
        then-Returns OwnsNothing NoneOwns (wrapped _ (config_to_desired K c)) _
          (wrapped-Returns OwnsNothing _ (config_to_desired K c)
            (config_to_desired-OwnsNothing K c))
          λ d owns.
            then-Returns NoneOwns NoneOwns (desireds_of cluster K cs) _ (desireds_of-NoneOwns cs)
              λ rest others. give-Returns NoneOwns (some d ∷ rest) (owns, others)

    union_selected-OwnsNothing :
        (cs : List ProxySqlConfig) → Returns (λ r. OwnsNothing r.0) (union_selected cluster K cs)
    unfolding union_selected with_peers
    union_selected-OwnsNothing cs =
        then-Returns NoneOwns (λ r. OwnsNothing r.0) (desireds_of cluster K cs) _
          (desireds_of-NoneOwns cs)
          λ ds none_own.
            give-Returns (λ r. OwnsNothing r.0) (with_peers cluster (union ds), is_any cluster cs)
              (if_no_peers-OwnsNothing _ (union ds) (union-OwnsNothing ds none_own))

    -- Whatever configurations there are, the three maps of variables of a union that is built hold
    -- neither the name nor the password of the monitor, for MySQL or for PostgreSQL. Its SQL
    -- statements are not looked at.
    pub build_unioned_desired-OwnsNothing :
        (list_configs : Reader K.State (List ProxySqlConfig)) (exclude_name : Text) (s s' : K.State)
        (d : Desired) (any : Bool)
        → build_unioned_desired cluster K list_configs exclude_name s ≡ (s', ok (d, any))
        → OwnsNothing d
    unfolding build_unioned_desired
    build_unioned_desired-OwnsNothing list_configs exclude_name s s' d any =
        bind-Returns (λ r. OwnsNothing r.0) list_configs _
          (λ configs. union_selected-OwnsNothing (selected cluster exclude_name configs)) s s'
          (d, any)
