-- ===== src/Report/Laws.antt =====
-- What a condition's text says of its parts.
use proxysql_on_k8s.Base.{
  ℕ, suc, ◌≤◌, ◌+◌, ◌≡◌, refl, sym, ap, ◌∙◌, subst, Bool, false, ◌||◌, List, [], ◌∷◌, ◌++◌, length,
  take, ltb, if◌then◌else◌, append_assoc, append-nil, length-append, length-take-le, arith,
}
use proxysql_on_k8s.Base.Text.{Text, codes, join, has_prefix}
use proxysql_on_k8s.Report.{write_parts, join_trunc, merge_summaries, restart_required}

-- A text cut off behind `max` bytes, with an ellipsis.
unfoldable pub truncated : ℕ → Text → Text
truncated max s = if ltb max (length s) then take max s ++ codes "..." else s

-- The parts behind each other, the first one behind `first`.
unfoldable pub chained : Text → List Text → Text
chained first [] = []
chained first (p ∷ ps) = first ++ (p ++ chained (codes "; ") ps)

chained-join :
    (p : Text) (ps : List Text) → p ++ chained (codes "; ") ps ≡ join (codes "; ") (p ∷ ps)
unfolding join chained
chained-join p [] = append-nil p
chained-join p (q ∷ qs) = ap (λ u. p ++ (codes "; " ++ u)) (chained-join q qs)

chained_nil : (ps : List Text) → chained [] ps ≡ join (codes "; ") ps
unfolding join chained
chained_nil [] = refl
chained_nil (p ∷ ps) = chained-join p ps

take-append : (n : ℕ) (s t : Text) → suc n ≤ length s → take n (s ++ t) ≡ take n s
take-append ℕ.zero s t h = refl
take-append (suc n) [] t h = absurd (omega (arith, h))
take-append (suc n) (c ∷ s) t h = ap (λ u. c ∷ u) (take-append n s t (omega (arith, h)))

-- A text whose beginning is too long is truncated to what its beginning is.
truncated-append :
    (max : ℕ) (s t : Text) → suc max ≤ length s → truncated max (s ++ t) ≡ take max s ++ codes "..."
unfolding truncated
truncated-append max s t h = ground (arith, take-append max s t h, length-append s t)

truncated_short : (max : ℕ) (s : Text) → length s ≤ max → truncated max s ≡ s
unfolding truncated
truncated_short max s h = ground arith

-- One round of the loop.
round_lem :
    (max : ℕ) (b t rest : Text)
    → (length b ≤ max → rest ≡ truncated max (b ++ t))
    → (if ltb max (length b) then take max b ++ codes "..." else rest) ≡ truncated max (b ++ t)
round_lem max b t rest h = ground (arith, truncated-append max b t, h)

write_parts-truncated :
    (max : ℕ) (b first : Text) (ps : List Text)
    → length b ≤ max
    → write_parts max b first ps ≡ truncated max (b ++ chained first ps)
unfolding write_parts chained
write_parts-truncated max b first [] h =
    sym (ap (truncated max) (append-nil b) ∙ truncated_short max b h)
write_parts-truncated max b first (p ∷ ps) h =
    round_lem max (b ++ (first ++ p)) (chained (codes "; ") ps) _
      (write_parts-truncated max (b ++ (first ++ p)) (codes "; ") ps)
    ∙ ap (truncated max) (append_assoc b (first ++ p) _ ∙ ap (λ u. b ++ u) (append_assoc first p _))

-- The errors' text is their texts joined by "; ", cut off behind `max` bytes if it is longer than
-- that.
pub join_trunc-join :
    (parts : List Text) (max : ℕ) → join_trunc parts max ≡ truncated max (join (codes "; ") parts)
unfolding join_trunc
join_trunc-join parts max =
    write_parts-truncated max [] [] parts (omega arith) ∙ ap (truncated max) (chained_nil parts)

length-truncated-le : (max : ℕ) (s : Text) → length (truncated max s) ≤ max + 3
unfolding truncated
length-truncated-le max s =
    ground (arith, length-append (take max s) (codes "..."), length-take-le max s)

-- It has at most `max` bytes and an ellipsis of three.
pub length-join_trunc-le : (parts : List Text) (max : ℕ) → length (join_trunc parts max) ≤ max + 3
length-join_trunc-le parts max =
    subst (λ u. length u ≤ max + 3) (sym (join_trunc-join parts max))
      (length-truncated-le max (join (codes "; ") parts))

has_prefix_nil : has_prefix [] restart_required ≡ false
unfolding has_prefix
has_prefix_nil = refl

-- The choice between two texts of which a test rejects the empty one.
chosen :
    (test : Text → Bool) (s t : Text)
    → test [] ≡ false
    → test (if test s then s else if test t then t else elim s [ [] ↦ t | c ∷ u ↦ c ∷ u ])
      ≡ test s || test t
chosen test [] t h = ground arith
chosen test (c ∷ s) t h = ground arith

-- The merged summary asks for a restart exactly when one of the two does.
pub merge_summaries-has_prefix :
    (vars_summary tls_summary : Text)
    → has_prefix (merge_summaries vars_summary tls_summary) restart_required
      ≡ has_prefix vars_summary restart_required || has_prefix tls_summary restart_required
unfolding merge_summaries
merge_summaries-has_prefix vars_summary tls_summary =
    chosen (λ s. has_prefix s restart_required) vars_summary tls_summary has_prefix_nil
