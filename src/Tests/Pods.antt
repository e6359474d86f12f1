-- ===== src/Tests/Pods.antt =====
-- A change of a variable that one pod takes at run time.
use proxysql_on_k8s.Base.Text.{has_prefix}
use proxysql_on_k8s.Base.Calls.{Reader, ok}
use proxysql_on_k8s.Base.{◌≡◌, refl, List, [], ◌∷◌, none, text_eq}
use proxysql_on_k8s.Base.Text.{Text, codes, join, text_ltb}
use proxysql_on_k8s.Client.Runtime.{put_variable_rows, read_global_variables}
use proxysql_on_k8s.Restart.Resolve.{
  Pods, Annotations, marked, resolve_restart_checksum, carry_out, apply_domains, has_any, push_all,
  push_changed, push_to, push_to_endpoints, put_mismatched, read_back,
}
use proxysql_on_k8s.Restart.Resolve.Markers.{IsMarked, IsDecided, resolve_restart_checksum-IsMarked}
use proxysql_on_k8s.Tests.Restarts.{data_with}
use proxysql_on_k8s.Restart.Verdict.{
  Change, classify_cnf_change, classify_data, unless_keys_differ, diff_non_cnf_keys, check_keys,
  unless_structural, classify_variables, domain_for_full_name, group_by_domain, push_or_keep,
  put_by_domain, put_changed, structural_frames, structural_hash, vars_hash, vars_lines,
}
use proxysql_on_k8s.Client.Sync.Variables.{value_of, load_save, sync_variables, update_variables}
use proxysql_on_k8s.Base.Dict.{lookup, keys, is_set, insert}
use proxysql_on_k8s.Base.Sort.{sort}
use proxysql_on_k8s.Restart.Cnf.{
  normalize_cnf, scan_cnf, scan_lines, is_structural, normal_line, parse_cnf_variables,
  put_variables, section_start, unquote, without_end_quote,
}
use proxysql_on_k8s.Base.Text.Decimal.{format_int}
use proxysql_on_k8s.Client.Quote.{double_quotes, quote}
use proxysql_on_k8s.Restart.Cnf.Lines.{span, split_lines, trim_right, var_line}

-- One pod, which takes every statement and has eight threads from then on.
abbrev one_pod : Pods
one_pod = record {
  State = List Text;
  discover = λ s. (s, ok (codes "10.0.0.1:6032" ∷ []));
  dial_tls = λ addrs s. (s, none);
  dial = λ addr s. (s, none);
  exec = λ addr q s. (q ∷ s, none);
  query = λ addr q s. (s, ok ((codes "mysql-threads" ∷ codes "8" ∷ []) ∷ []));
}

abbrev resolved : Reader (List Text) Annotations
resolved =
    resolve_restart_checksum one_pod (λ t. t) (data_with (codes "4")) (data_with (codes "8"))
      (codes "old") (codes "newer") [] [] 1

abbrev decided : Change
decided =
    classify_cnf_change (λ t. t) (data_with (codes "4")) (data_with (codes "8")) (codes "old")
      (codes "newer") [] []

abbrev applied : Annotations
applied =
    marked one_pod (λ t. t) (data_with (codes "4")) (data_with (codes "8")) (codes "old")
      (codes "newer") [] [] 1 (codes "old") (codes "RuntimeApplied: mysql-threads")

abbrev sent : List Text
sent =
    codes "SAVE MYSQL VARIABLES TO DISK"
    ∷ codes "LOAD MYSQL VARIABLES TO RUNTIME"
    ∷ codes "UPDATE global_variables SET variable_value='8' WHERE variable_name='mysql-threads'"
    ∷ []

runs : resolved [] ≡ (sent, ok applied)
unfolding resolve_restart_checksum text_eq carry_out classify_cnf_change value_of lookup join
    classify_data unless_keys_differ diff_non_cnf_keys sort check_keys keys is_set insert
    unless_structural normalize_cnf scan_cnf scan_lines format_int text_ltb double_quotes quote
    put_variable_rows read_global_variables load_save sync_variables update_variables span
    split_lines trim_right var_line is_structural normal_line parse_cnf_variables put_variables
    section_start unquote without_end_quote apply_domains has_any push_all push_changed push_to
    push_to_endpoints put_mismatched read_back classify_variables domain_for_full_name
    group_by_domain has_prefix push_or_keep put_by_domain put_changed structural_frames
    structural_hash vars_hash vars_lines
runs = refl

resolve_restart_checksum-IsMarked_example :
    IsMarked one_pod
      (λ t. t)
      (data_with (codes "4"))
      (data_with (codes "8"))
      (codes "old")
      (codes "newer")
      []
      []
      1
      applied
    × IsDecided one_pod
        (λ t. t)
        (data_with (codes "4"))
        (data_with (codes "8"))
        (codes "old")
        (codes "newer")
        []
        []
        1
        decided.verdict
        decided
        []
        sent
        applied
resolve_restart_checksum-IsMarked_example =
    resolve_restart_checksum-IsMarked one_pod (λ t. t) (data_with (codes "4"))
      (data_with (codes "8")) (codes "old") (codes "newer") [] [] 1 [] sent applied runs
