-- ===== src/Tests/Reports.antt =====
-- Conditions' texts, at concrete parts.
use proxysql_on_k8s.Base.{◌≡◌, refl, ◌||◌, List, [], ◌∷◌}
use proxysql_on_k8s.Base.Text.{Text, codes, join, has_prefix}
use proxysql_on_k8s.Report.{join_trunc, merge_summaries, restart_required, write_parts}
use proxysql_on_k8s.Report.Laws.{truncated, join_trunc-join, merge_summaries-has_prefix}

abbrev two_errors : List Text
two_errors = codes "a: refused" ∷ codes "b: refused" ∷ []

cut_off : join_trunc two_errors 14 ≡ codes "a: refused; b:..."
unfolding join_trunc write_parts
cut_off = refl

join_trunc-join_example : join_trunc two_errors 14 ≡ truncated 14 (join (codes "; ") two_errors)
join_trunc-join_example = join_trunc-join two_errors 14

merge_summaries-has_prefix_example :
    has_prefix
      (merge_summaries (codes "RuntimeApplied: x") (codes "RestartRequired: y"))
      restart_required
    ≡ has_prefix (codes "RuntimeApplied: x") restart_required
      || has_prefix (codes "RestartRequired: y") restart_required
merge_summaries-has_prefix_example =
    merge_summaries-has_prefix (codes "RuntimeApplied: x") (codes "RestartRequired: y")
