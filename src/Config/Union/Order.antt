-- ===== src/Config/Union/Order.antt =====
-- The order in which Kubernetes lists the configurations does not matter.
use proxysql_on_k8s.Api.{ProxySqlConfig}
use proxysql_on_k8s.Base.{◌≡◌, sym, ap, ◌∙◌, List, In}
use proxysql_on_k8s.Base.Calls.{Reader, ok}
use proxysql_on_k8s.Base.Calls.Returns.{bind-ok}
use proxysql_on_k8s.Base.Sort.{IsWeakOrder}
use proxysql_on_k8s.Base.Sort.Laws.Order.{In-keep, keep_rearranged, sort_rearranged}
use proxysql_on_k8s.Base.Text.{Text}
use proxysql_on_k8s.Base.Text.Order.{text_order}
use proxysql_on_k8s.Config.Desired.{Secrets}
use proxysql_on_k8s.Config.Union.{
  ClusterView, is_selected, less_name, selected, union_selected, build_unioned_desired,
}
use mathlib.Core.List.{Permᴰ}

less_name-IsWeakOrder : IsWeakOrder less_name
less_name-IsWeakOrder = record {
  asym = λ a b. text_order.weak.asym a.name b.name;
  neg_trans = λ a b c. text_order.weak.neg_trans a.name b.name c.name;
}

-- A name belongs to one configuration, as within a namespace.
abbrev pub HasUniqueNames : List ProxySqlConfig → Type 0
HasUniqueNames cs = (a b : ProxySqlConfig) → In a cs → In b cs → a.name ≡ b.name → a ≡ b

module _ (cluster : ClusterView) (exclude_name : Text) where
  selected_rearranged :
      (cs cs' : List ProxySqlConfig)
      → Permᴰ cs cs'
      → HasUniqueNames cs
      → selected cluster exclude_name cs ≡ selected cluster exclude_name cs'
  unfolding selected
  selected_rearranged cs cs' d h =
      let p = is_selected cluster exclude_name in
      sort_rearranged less_name less_name-IsWeakOrder (keep_rearranged p d)
        (λ a b i j not_less not_more.
          h a b (In-keep p a cs i) (In-keep p b cs j)
            (text_order.connex a.name b.name not_less not_more))

  module _ (K : Secrets) where
    -- Two lists of the same configurations, each name of one configuration only, have one union,
    -- and the same calls are made for it.
    pub build_unioned_desired_rearranged :
        (list_configs list_configs' : Reader K.State (List ProxySqlConfig)) (s s' : K.State)
        (cs cs' : List ProxySqlConfig)
        → list_configs s ≡ (s', ok cs)
        → list_configs' s ≡ (s', ok cs')
        → Permᴰ cs cs'
        → HasUniqueNames cs
        → build_unioned_desired cluster K list_configs exclude_name s
          ≡ build_unioned_desired cluster K list_configs' exclude_name s
    unfolding build_unioned_desired
    build_unioned_desired_rearranged list_configs list_configs' s s' cs cs' l l' d h =
        let build = λ (found : List ProxySqlConfig).
          union_selected cluster K (selected cluster exclude_name found) in
        bind-ok list_configs build s s' cs l
        ∙ ap (λ u. union_selected cluster K u s') (selected_rearranged cs cs' d h)
        ∙ sym (bind-ok list_configs' build s s' cs' l')
