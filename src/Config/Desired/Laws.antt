-- ===== src/Config/Desired/Laws.antt =====
-- What a configuration that is accepted holds.
use proxysql_on_k8s.Api.{ProxySqlConfig}
use proxysql_on_k8s.Base.{◌≡◌, arith, refl, ap, List, [], ◌∷◌, Option, none, some, All, text_eq}
use proxysql_on_k8s.Base.Calls.{Result, ok, give_result}
use proxysql_on_k8s.Base.Calls.Returns.{bind-Leads, Returns, give-Returns, bind-Returns}
use proxysql_on_k8s.Base.Dict.{Dict, lookup}
use proxysql_on_k8s.Base.Text.{Text, codes}
use proxysql_on_k8s.Client.Types.{Desired}
use proxysql_on_k8s.Config.Desired.{
  Secrets, first_in, operator_owned, unless_owned, check_groups, variable_groups, mysql_users_of,
  pgsql_users_of, desired_with, with_users, config_to_desired,
}

-- No key of the list is in the map.
abbrev pub LacksAll : List Text → Dict Text Text → Type 0
LacksAll ks vars = All (λ k. lookup k vars ≡ none) ks

first_in-none :
    (vars : Dict Text Text) (ks : List Text) → first_in vars ks ≡ none → LacksAll ks vars
unfolding first_in
first_in-none vars [] h = tt
first_in-none vars (k ∷ ks) h = ground (arith, first_in-none vars ks, h)

-- The variables that the operator sets from the cluster's Secret.
abbrev pub monitor_names : List Text
monitor_names =
    codes "mysql-monitor_username"
    ∷ codes "mysql-monitor_password"
    ∷ codes "pgsql-monitor_username"
    ∷ codes "pgsql-monitor_password"
    ∷ []

-- The three maps of variables hold none of these.
abbrev pub OwnsNothing : Desired → Type 0
OwnsNothing d =
    LacksAll monitor_names d.admin_variables
    × LacksAll monitor_names d.mysql_variables
    × LacksAll monitor_names d.pgsql_variables

module _ (K : Secrets) where
  unless_owned_ok :
      (field : Text) (found : Option Text) (rest : Result Unit)
      → unless_owned K field found rest ≡ ok tt
      → (found ≡ none) × (rest ≡ ok tt)
  unfolding unless_owned
  unless_owned_ok field none rest h = (refl, h)
  unless_owned_ok field (some key) rest h = absurd cc

  check_groups_ok :
      (groups : List (Text × Dict Text Text))
      → check_groups K groups ≡ ok tt
      → All (λ g. LacksAll operator_owned g.1) groups
  unfolding check_groups
  check_groups_ok [] h = tt
  check_groups_ok ((field, vars) ∷ groups) h =
      let (none_in, rest) =
        unless_owned_ok field (first_in vars operator_owned) (check_groups K groups) h in
      (first_in-none vars operator_owned none_in, check_groups_ok groups rest)

  with_users-OwnsNothing :
      (cfg : ProxySqlConfig)
      → All (λ g. LacksAll operator_owned g.1) (variable_groups K cfg.spec)
      → Returns OwnsNothing (with_users K cfg)
  unfolding with_users desired_with
  with_users-OwnsNothing cfg (admin, (mysql, (pgsql, _))) =
      bind-Returns OwnsNothing (mysql_users_of K cfg.namespace cfg.spec.mysql_users) _
        λ mysql_users.
          bind-Returns OwnsNothing (pgsql_users_of K cfg.namespace cfg.spec.pgsql_users) _
            λ pgsql_users.
              give-Returns OwnsNothing (desired_with K cfg.spec mysql_users pgsql_users)
                (admin, mysql, pgsql)

  -- A configuration that is accepted sets no variable that is the operator's.
  pub config_to_desired-OwnsNothing :
      (cfg : ProxySqlConfig) → Returns OwnsNothing (config_to_desired K cfg)
  unfolding config_to_desired
  config_to_desired-OwnsNothing cfg =
      bind-Leads (λ s checked. All (λ g. LacksAll operator_owned g.1) (variable_groups K cfg.spec))
        (λ s. OwnsNothing) (give_result (check_groups K (variable_groups K cfg.spec))) _
        (λ s s' checked h. check_groups_ok (variable_groups K cfg.spec) (ap (λ r. r.1) h))
        (λ s checked owned. with_users-OwnsNothing cfg owned s)
