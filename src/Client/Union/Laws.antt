-- ===== src/Client/Union/Laws.antt =====
-- A union holds, under each key, what the last configuration that names it says; its sections are in
-- the order of their keys, each key once, whatever the configurations hold.
use proxysql_on_k8s.Base.{
  ◌≡◌, refl, sym, ap, ◌∙◌, Bool, List, [], ◌∷◌, ◌++◌, Option, none, some, map, Eq, text_eq,
}
use proxysql_on_k8s.Base.Int.{ℤ, ltb_ℤ, int_eq, int_order}
use proxysql_on_k8s.Base.Text.{Text, text_ltb}
use proxysql_on_k8s.Base.Text.Order.{text_order}
use proxysql_on_k8s.Base.Dict.{Dict, lookup}
use proxysql_on_k8s.Base.Sort.{IsTotalOrder}
use proxysql_on_k8s.Client.Types.{
  Desired, MySqlServer, MySqlUser, MySqlQueryRule, MySqlReplicationHostgroup,
  MySqlHostgroupAttributes, PostgreSqlServer, PostgreSqlUser, PostgreSqlQueryRule, ProxySqlServer,
}
use proxysql_on_k8s.Client.Union.{
  Merged, nothing_merged, merge_one, merge_all, put_all, flatten, flatten_all, union,
  mysql_server_key, pgsql_server_key, peer_key,
}
use proxysql_on_k8s.Client.Union.Keyed.{
  last_with, first_with, lookup-put_all, put_all-append, IsKeyed, put_all-IsKeyed, nil-IsKeyed,
  first_with-flatten, flatten-IsAscending, IsAscending,
}

-- The entries of a section in all configurations, in their order.
abbrev pub all_entries : {V : Type 0} → (Desired → List V) → List (Option Desired) → List V
all_entries section [] = []
all_entries section (none ∷ ds) = all_entries section ds
all_entries section (some d ∷ ds) = section d ++ all_entries section ds

-- A keyed section: how `Union` merges and flattens it.
record Section (K V : Type 0) ⦃e : Eq K⦄ : Type 0 where
  key : V → K
  less : K → K → Bool
  section : Desired → List V
  merged : Merged → Dict K V
  starts : merged nothing_merged ≡ []
  merges : (d : Desired) (m : Merged) → merged (merge_one d m) ≡ put_all key (section d) (merged m)
  flattens : (m : Merged) → section (flatten_all m) ≡ flatten less (merged m)

last_or_none : {V : Type 0} (o : Option V) → elim o [ some v ↦ some v | none ↦ none ] ≡ o
last_or_none none = refl
last_or_none (some v) = refl

module _ {K V : Type 0} ⦃e : Eq K⦄ (S : Section K V) where
  open S use {key, less, section, merged}

  merged-merge_all :
      (ds : List (Option Desired)) (m : Merged)
      → merged (merge_all ds m) ≡ put_all key (all_entries section ds) (merged m)
  unfolding merge_all
  merged-merge_all [] m = unfold put_all in refl
  merged-merge_all (none ∷ ds) m = merged-merge_all ds m
  merged-merge_all (some d ∷ ds) m =
      merged-merge_all ds (merge_one d m)
      ∙ ap (put_all key (all_entries section ds)) (S.merges d m)
      ∙ sym (put_all-append key (section d) (all_entries section ds) (merged m))

  merged-union :
      (ds : List (Option Desired))
      → section (union ds) ≡ flatten less (put_all key (all_entries section ds) [])
  unfolding union
  merged-union ds =
      S.flattens (merge_all ds nothing_merged)
      ∙ ap (flatten less)
          (merged-merge_all ds nothing_merged ∙ ap (put_all key (all_entries section ds)) S.starts)

  entries-IsKeyed :
      (ds : List (Option Desired)) → IsKeyed key (put_all key (all_entries section ds) [])
  entries-IsKeyed ds = put_all-IsKeyed key (all_entries section ds) [] (nil-IsKeyed key)

  section_last :
      (ds : List (Option Desired)) (k : K)
      → first_with key k (section (union ds)) ≡ last_with key k (all_entries section ds)
  unfolding lookup
  section_last ds k =
      ap (first_with key k) (merged-union ds)
      ∙ first_with-flatten key less k _ (entries-IsKeyed ds)
      ∙ lookup-put_all key k (all_entries section ds) []
      ∙ last_or_none (last_with key k (all_entries section ds))

  section-IsAscending :
      (t : IsTotalOrder less) (ds : List (Option Desired))
      → IsAscending less (map key (section (union ds)))
  section-IsAscending t ds =
      rw (merged-union ds) (flatten-IsAscending less t key _ (entries-IsKeyed ds))

mysql_servers_section : Section Text MySqlServer
unfolding merge_one flatten_all
mysql_servers_section = record {
  key = mysql_server_key;
  less = text_ltb;
  section = λ d. d.mysql_servers;
  merged = λ m. m.msrv;
  starts = refl;
  merges = λ d m. refl;
  flattens = λ m. refl;
}

mysql_users_section : Section Text MySqlUser
unfolding merge_one flatten_all
mysql_users_section = record {
  key = (λ u. u.username);
  less = text_ltb;
  section = λ d. d.mysql_users;
  merged = λ m. m.musr;
  starts = refl;
  merges = λ d m. refl;
  flattens = λ m. refl;
}

mysql_query_rules_section : Section ℤ MySqlQueryRule
unfolding merge_one flatten_all
mysql_query_rules_section = record {
  key = (λ r. r.rule_id);
  less = ltb_ℤ;
  section = λ d. d.mysql_query_rules;
  merged = λ m. m.mrule;
  starts = refl;
  merges = λ d m. refl;
  flattens = λ m. refl;
}

mysql_replication_hostgroups_section : Section ℤ MySqlReplicationHostgroup
unfolding merge_one flatten_all
mysql_replication_hostgroups_section = record {
  key = (λ h. h.writer_hostgroup);
  less = ltb_ℤ;
  section = λ d. d.mysql_replication_hostgroups;
  merged = λ m. m.mrepl;
  starts = refl;
  merges = λ d m. refl;
  flattens = λ m. refl;
}

mysql_hostgroup_attributes_section : Section ℤ MySqlHostgroupAttributes
unfolding merge_one flatten_all
mysql_hostgroup_attributes_section = record {
  key = (λ a. a.hostgroup);
  less = ltb_ℤ;
  section = λ d. d.mysql_hostgroup_attributes;
  merged = λ m. m.mattr;
  starts = refl;
  merges = λ d m. refl;
  flattens = λ m. refl;
}

pgsql_servers_section : Section Text PostgreSqlServer
unfolding merge_one flatten_all
pgsql_servers_section = record {
  key = pgsql_server_key;
  less = text_ltb;
  section = λ d. d.pgsql_servers;
  merged = λ m. m.pgsrv;
  starts = refl;
  merges = λ d m. refl;
  flattens = λ m. refl;
}

pgsql_users_section : Section Text PostgreSqlUser
unfolding merge_one flatten_all
pgsql_users_section = record {
  key = (λ u. u.username);
  less = text_ltb;
  section = λ d. d.pgsql_users;
  merged = λ m. m.pgusr;
  starts = refl;
  merges = λ d m. refl;
  flattens = λ m. refl;
}

pgsql_query_rules_section : Section ℤ PostgreSqlQueryRule
unfolding merge_one flatten_all
pgsql_query_rules_section = record {
  key = (λ r. r.rule_id);
  less = ltb_ℤ;
  section = λ d. d.pgsql_query_rules;
  merged = λ m. m.pgrule;
  starts = refl;
  merges = λ d m. refl;
  flattens = λ m. refl;
}

proxysql_servers_section : Section Text ProxySqlServer
unfolding merge_one flatten_all
proxysql_servers_section = record {
  key = peer_key;
  less = text_ltb;
  section = λ d. d.proxysql_servers;
  merged = λ m. m.psrv;
  starts = refl;
  merges = λ d m. refl;
  flattens = λ m. refl;
}

-- The first entry of a section of a union under a key is the last of the section's entries in all
-- configurations under that key.
abbrev pub LastWins :
    {K V : Type 0} ⦃e : Eq K⦄ → (V → K) → (Desired → List V) → List (Option Desired) → Type 0
LastWins {K} key section ds =
    (k : K) → first_with key k (section (union ds)) ≡ last_with key k (all_entries section ds)

-- In each section, the first entry that a union has under a key is the last that any of the
-- configurations, taken in their order, has under it; a key that none has is not in the union.
pub union-LastWins :
    (ds : List (Option Desired))
    → LastWins mysql_server_key (λ d. d.mysql_servers) ds
      × LastWins (λ u. u.username) (λ d. d.mysql_users) ds
      × LastWins (λ r. r.rule_id) (λ d. d.mysql_query_rules) ds
      × LastWins (λ h. h.writer_hostgroup) (λ d. d.mysql_replication_hostgroups) ds
      × LastWins (λ a. a.hostgroup) (λ d. d.mysql_hostgroup_attributes) ds
      × LastWins pgsql_server_key (λ d. d.pgsql_servers) ds
      × LastWins (λ u. u.username) (λ d. d.pgsql_users) ds
      × LastWins (λ r. r.rule_id) (λ d. d.pgsql_query_rules) ds
      × LastWins peer_key (λ d. d.proxysql_servers) ds
unfolding mysql_servers_section mysql_users_section mysql_query_rules_section
    mysql_replication_hostgroups_section mysql_hostgroup_attributes_section pgsql_servers_section
    pgsql_users_section pgsql_query_rules_section proxysql_servers_section
union-LastWins ds = (
  section_last mysql_servers_section ds,
  section_last mysql_users_section ds,
  section_last mysql_query_rules_section ds,
  section_last mysql_replication_hostgroups_section ds,
  section_last mysql_hostgroup_attributes_section ds,
  section_last pgsql_servers_section ds,
  section_last pgsql_users_section ds,
  section_last pgsql_query_rules_section ds,
  section_last proxysql_servers_section ds,
)

-- Each section of a union is in ascending order of its keys, so no key stands twice.
pub union-IsAscending :
    (ds : List (Option Desired))
    → IsAscending text_ltb (map mysql_server_key (union ds).mysql_servers)
      × IsAscending text_ltb (map (λ u. u.username) (union ds).mysql_users)
      × IsAscending ltb_ℤ (map (λ r. r.rule_id) (union ds).mysql_query_rules)
      × IsAscending ltb_ℤ (map (λ h. h.writer_hostgroup) (union ds).mysql_replication_hostgroups)
      × IsAscending ltb_ℤ (map (λ a. a.hostgroup) (union ds).mysql_hostgroup_attributes)
      × IsAscending text_ltb (map pgsql_server_key (union ds).pgsql_servers)
      × IsAscending text_ltb (map (λ u. u.username) (union ds).pgsql_users)
      × IsAscending ltb_ℤ (map (λ r. r.rule_id) (union ds).pgsql_query_rules)
      × IsAscending text_ltb (map peer_key (union ds).proxysql_servers)
unfolding mysql_servers_section mysql_users_section mysql_query_rules_section
    mysql_replication_hostgroups_section mysql_hostgroup_attributes_section pgsql_servers_section
    pgsql_users_section pgsql_query_rules_section proxysql_servers_section
union-IsAscending ds = (
  section-IsAscending mysql_servers_section text_order ds,
  section-IsAscending mysql_users_section text_order ds,
  section-IsAscending mysql_query_rules_section int_order ds,
  section-IsAscending mysql_replication_hostgroups_section int_order ds,
  section-IsAscending mysql_hostgroup_attributes_section int_order ds,
  section-IsAscending pgsql_servers_section text_order ds,
  section-IsAscending pgsql_users_section text_order ds,
  section-IsAscending pgsql_query_rules_section int_order ds,
  section-IsAscending proxysql_servers_section text_order ds,
)
