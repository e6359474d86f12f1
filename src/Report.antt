-- ===== src/Report.antt =====
-- operator/internal/controller: the texts of the status conditions. `joinTrunc` and `joinErrs` of
-- proxysqlconfig_controller.go and `mergeSummaries` of tls_rotation.go.
pub mod Laws
use proxysql_on_k8s.Base.{
  ℕ, Bool, true, false, List, [], ◌∷◌, ◌++◌, length, take, ltb, if◌then◌else◌,
}
use proxysql_on_k8s.Base.Text.{Text, codes, has_prefix}

-- The loop over the parts, which leaves it when the text is longer than the limit. What goes in
-- front of the first part is empty.
unfoldable pub write_parts : ℕ → Text → Text → List Text → Text
write_parts max b separator [] = b
write_parts max b separator (p ∷ ps) =
    let b' = b ++ (separator ++ p) in
    let rest = write_parts max b' (codes "; ") ps in
    if ltb max (length b') then take max b' ++ codes "..." else rest

unfoldable pub join_trunc : List Text → ℕ → Text
unfolding write_parts
join_trunc parts max = write_parts max [] [] parts

-- The errors are their texts.
unfoldable pub join_errs : List Text → Text
unfolding join_trunc
join_errs [] = []
join_errs (e ∷ errs) = join_trunc (e ∷ errs) 512

abbrev pub restart_required : Text
restart_required = codes "RestartRequired"

-- `switch`, whose cases are tried in their order.
unfoldable pub merge_summaries : Text → Text → Text
merge_summaries vars_summary tls_summary =
    if has_prefix vars_summary restart_required
    then vars_summary
    else if has_prefix tls_summary restart_required
    then tls_summary
    else elim vars_summary [ [] ↦ tls_summary | c ∷ s ↦ c ∷ s ]
