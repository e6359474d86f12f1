-- ===== src/Restart/Cnf/Laws.antt =====
-- Two configurations have one normal form exactly when they agree but for the values of variables
-- that can be set at run time.
use proxysql_on_k8s.Base.{
  ◌≡◌, ◌≢◌, ◌↔◌, refl, sym, ap, ◌∙◌, Bool, true, false, List, [], ◌∷◌, ◌++◌, Option, none, some,
  All, All-append, Bool-cases, Option-cases, inl, inr, arith, if◌then◌else◌, map, ◌==◌, text_eq,
  subst, cons-injective,
}
use mathlib.Core.Option.{some-injective}
use proxysql_on_k8s.Base.Text.{Text, codes, join}
use proxysql_on_k8s.Restart.Cnf.{
  CnfLine, plain, variable, is_structural, section_start, scan_lines, scan_cnf, runtime_line,
  normal_line, normalize_cnf,
}
use proxysql_on_k8s.Restart.Cnf.Lines.{VarLine, var_line, split_lines, span, trim_right}
use proxysql_on_k8s.Restart.Cnf.Lines.Laws.{
  OneLine, split_lines-OneLine, split_lines-join, split_lines_some, var_line-Parts, var_line-append,
}

-- Lines that agree but for a value: the same text, or lines of one variable, in one section and with
-- the same white space in front, whose texts are the same where the variable is structural.
abbrev pub SameLine : CnfLine → CnfLine → Type 0
SameLine (plain a) (plain b) = a ≡ b
SameLine (variable a leading key name value) (variable b leading' key' name' value') =
    (leading ≡ leading') × (key ≡ key') × (name ≡ name') × (is_structural name ≡ true → a ≡ b)
SameLine (plain a) (variable b leading key name value) = ⊥
SameLine (variable a leading key name value) (plain b) = ⊥

abbrev pub SameLines : List CnfLine → List CnfLine → Type 0
SameLines [] [] = Unit
SameLines (x ∷ xs) (y ∷ ys) = SameLine x y × SameLines xs ys
SameLines [] (y ∷ ys) = ⊥
SameLines (x ∷ xs) [] = ⊥

SameLine-normal_line : (x y : CnfLine) → SameLine x y → normal_line x ≡ normal_line y
unfolding normal_line
SameLine-normal_line (plain a) (plain b) h = h
SameLine-normal_line (variable a l k n v) (variable b l' k' n' v') (hl, hk, hn, ht) =
    elim (Bool-cases (is_structural n)) [
      | inl e ↦ rw (e, rw hn at e) (ht e)
      | inr e ↦ rw (e, rw hn at e, hl, hk) refl
    ]
SameLine-normal_line (plain a) (variable b l k n v) h = absurd h
SameLine-normal_line (variable a l k n v) (plain b) h = absurd h

SameLines-normal_line :
    (xs ys : List CnfLine) → SameLines xs ys → map normal_line xs ≡ map normal_line ys
SameLines-normal_line [] [] h = refl
SameLines-normal_line (x ∷ xs) (y ∷ ys) h =
    rw (SameLine-normal_line x y h.0, SameLines-normal_line xs ys h.1) refl
SameLines-normal_line [] (y ∷ ys) h = absurd h
SameLines-normal_line (x ∷ xs) [] h = absurd h

some_not_none : {A : Type 0} {a : A} → some a ≡ none → ⊥
some_not_none h = cc

module _ (prefix : Text) where
  -- A line of a section.
  abbrev full : Text → Text
  full key = prefix ++ (codes "-" ++ key)

  abbrev as_variable : Text → Option VarLine → CnfLine
  as_variable line none = plain line
  as_variable line (some v) = variable line v.leading v.key (full v.key) v.value

  abbrev closes : Text → Bool
  closes line = line == codes "}"

  abbrev in_section : Text → CnfLine
  in_section line = if closes line then plain line else as_variable line (var_line line)

  abbrev goes_on : Text → Option Text
  goes_on line = if closes line then none else some prefix

  scan_lines-cons :
      (line : Text) (lines : List Text)
      → scan_lines (some prefix) (line ∷ lines) ≡ in_section line ∷ scan_lines (goes_on line) lines
  unfolding scan_lines
  scan_lines-cons line lines = elim (Bool-cases (closes line)) [
    | inl e ↦ rw e refl
    | inr e ↦ elim (Option-cases (var_line line)) [
      | inl n ↦ rw (e, n) refl
      | inr (v, s) ↦ rw (e, s) refl
    ]
  ]

  -- The white space and the key of a section's variable.
  abbrev parts : CnfLine → Option (Text × Text)
  parts (plain line) = none
  parts (variable line leading key name value) = some (leading, key)

  brace_no_variable :
      (line : Text) → closes line ≡ true → (v : VarLine) → var_line line ≡ some v → ⊥
  brace_no_variable line c v h =
      let brace : line ≡ codes "}" = ground arith in
      let nothing : var_line (codes "}") ≡ none = unfold var_line span in refl in
      some_not_none (sym h ∙ ap var_line brace ∙ nothing)

  runtime_line-in_section :
      (line : Text) (v : VarLine)
      → var_line line ≡ some v
      → in_section (runtime_line v.leading v.key)
        ≡ variable (runtime_line v.leading v.key) v.leading v.key (full v.key) (codes "<runtime>")
  runtime_line-in_section line v e =
      let shape = var_line-Parts line v e in
      let found : var_line (runtime_line v.leading v.key)
          ≡ some (record v { value = codes "<runtime>" }) =
        var_line-append v.leading v.key (codes "<runtime>") shape.spaces shape.chars shape.named
        ∙ unfold trim_right in refl in
      elim (Bool-cases (closes (runtime_line v.leading v.key))) [
        | inl c ↦ absurd (brace_no_variable _ c _ found)
        | inr c ↦ rw (c, found) refl
      ]

  parts-normal_line :
      (line : Text) → parts (in_section (normal_line (in_section line))) ≡ parts (in_section line)
  unfolding normal_line
  parts-normal_line line = elim (Bool-cases (closes line)) [
    | inl e ↦ rw (e, e) refl
    | inr e ↦ elim (Option-cases (var_line line)) [
      | inl n ↦ rw (e, n, e, n) refl
      | inr (v, s) ↦ elim (Bool-cases (is_structural (full v.key))) [
        | inl t ↦ rw (e, s, t, e, s) refl
        | inr t ↦ rw (e, s, t, runtime_line-in_section line v s) refl
      ]
    ]
  ]

  -- A line of a section is left as it is, or is a variable's.
  data Kind (line : Text) : Type 0 where
    left : in_section line ≡ plain line → Kind line
    found :
        (v : VarLine)
        → closes line ≡ false
        → in_section line ≡ as_variable line (some v)
        → Kind line

  kind : (line : Text) → Kind line
  kind line = elim (Bool-cases (closes line)) [
    | inl e ↦ left (rw e refl)
    | inr e ↦ elim (Option-cases (var_line line)) [
      | inl n ↦ left (rw (e, n) refl)
      | inr (v, s) ↦ found v e (rw (e, s) refl)
    ]
  ]

  plain_line : (line : Text) → in_section line ≡ plain line → normal_line (in_section line) ≡ line
  unfolding normal_line
  plain_line line e = rw e refl

  structural_line :
      (line : Text) (v : VarLine)
      → in_section line ≡ as_variable line (some v)
      → is_structural (full v.key) ≡ true
      → normal_line (in_section line) ≡ line
  unfolding normal_line
  structural_line line v e s = rw (e, s) refl

  same_in_section :
      (a b : Text)
      → normal_line (in_section a) ≡ normal_line (in_section b)
      → SameLine (in_section a) (in_section b) × (closes a ≡ closes b)
  same_in_section a b h =
      let same_parts : parts (in_section a) ≡ parts (in_section b) =
        sym (parts-normal_line a) ∙ ap (λ t. parts (in_section t)) h ∙ parts-normal_line b in
      elim (kind a) [
        | left ea ↦ elim (kind b) [
          | left eb ↦
              let same : a ≡ b = sym (plain_line a ea) ∙ h ∙ plain_line b eb in
              (rw (ea, eb) same, ap closes same)
          | found v cb eb ↦
              absurd (some_not_none (sym (ap parts eb) ∙ sym same_parts ∙ ap parts ea))
        ]
        | found u ca ea ↦ elim (kind b) [
          | left eb ↦ absurd (some_not_none (sym (ap parts ea) ∙ same_parts ∙ ap parts eb))
          | found v cb eb ↦
              let same = some-injective _ _ (sym (ap parts ea) ∙ same_parts ∙ ap parts eb) in
              let keys : u.key ≡ v.key = ap (λ t. t.1) same in
              (
                rw (ea, eb)
                    (
                      ap (λ t. t.0) same,
                      keys,
                      ap full keys,
                      λ s.
                          sym (structural_line a u ea s)
                          ∙ h
                          ∙ structural_line b v eb
                              (sym (ap (λ k. is_structural (full k)) keys) ∙ s),
                    ),
                rw (ca, cb) refl,
              )
        ]
      ]

heads : {A : Type 0} {x y : A} {xs ys : List A} → x ∷ xs ≡ y ∷ ys → x ≡ y
heads h = cc

cons_not_nil : {A : Type 0} {x : A} {xs : List A} → x ∷ xs ≡ [] → ⊥
cons_not_nil h = cc

abbrev normal_lines : Option Text → List Text → List Text
normal_lines section lines = map normal_line (scan_lines section lines)

normal_lines-cons :
    (prefix line : Text) (lines : List Text)
    → normal_lines (some prefix) (line ∷ lines)
      ≡ normal_line (in_section prefix line) ∷ normal_lines (goes_on prefix line) lines
normal_lines-cons prefix line lines = ap (map normal_line) (scan_lines-cons prefix line lines)

-- Sections that are left at the same line go on alike.
same_tail :
    (s t : Option Text) (xs ys : List Text)
    → s ≡ t
    → (normal_lines s xs ≡ normal_lines s ys → SameLines (scan_lines s xs) (scan_lines s ys))
    → normal_lines s xs ≡ normal_lines t ys
    → SameLines (scan_lines s xs) (scan_lines t ys)
same_tail s t xs ys e =
    subst
      (λ t.
        (normal_lines s xs ≡ normal_lines s ys → SameLines (scan_lines s xs) (scan_lines s ys))
        → normal_lines s xs ≡ normal_lines t ys
        → SameLines (scan_lines s xs) (scan_lines t ys))
      e (λ go h. go h)

same_scan :
    (section : Option Text) (xs ys : List Text)
    → normal_lines section xs ≡ normal_lines section ys
    → SameLines (scan_lines section xs) (scan_lines section ys)
unfolding scan_lines normal_line
same_scan section [] [] h = tt
same_scan none [] (y ∷ ys) h = absurd (cons_not_nil (sym h))
same_scan none (x ∷ xs) [] h = absurd (cons_not_nil h)
same_scan (some prefix) [] (y ∷ ys) h =
    absurd (cons_not_nil (sym (normal_lines-cons prefix y ys) ∙ sym h))
same_scan (some prefix) (x ∷ xs) [] h =
    absurd (cons_not_nil (sym (normal_lines-cons prefix x xs) ∙ h))
same_scan none (x ∷ xs) (y ∷ ys) h =
    let same : x ≡ y = heads h in
    (
      same,
      same_tail (section_start x) (section_start y) xs ys (ap section_start same)
          (same_scan (section_start x) xs ys) (cons-injective h),
    )
same_scan (some prefix) (x ∷ xs) (y ∷ ys) h =
    let both = sym (normal_lines-cons prefix x xs) ∙ h ∙ normal_lines-cons prefix y ys in
    let (line, closing) = same_in_section prefix x y (heads both) in
    rw (scan_lines-cons prefix x xs, scan_lines-cons prefix y ys)
      (
        line,
        same_tail (goes_on prefix x) (goes_on prefix y) xs ys
            (ap (λ b. if b then none else some prefix) closing) (same_scan (goes_on prefix x) xs ys)
            (cons-injective both),
      )

normal_line-OneLine :
    (prefix line : Text) → OneLine line → OneLine (normal_line (in_section prefix line))
unfolding normal_line
normal_line-OneLine prefix line h = elim (Bool-cases (closes prefix line)) [
  | inl e ↦ rw e h
  | inr e ↦ elim (Option-cases (var_line line)) [
    | inl n ↦ rw (e, n) h
    | inr (v, s) ↦
        let (hl, hk) = (var_line-Parts line v s).one_line h in
        elim (Bool-cases (is_structural (full prefix v.key))) [
          | inl t ↦ rw (e, s, t) h
          | inr t ↦
              rw (e, s, t)
                (All-append _ v.leading _ hl
                  (All-append _ v.key (codes "=<runtime>") hk (omega arith)))
        ]
  ]
]

normal_lines-OneLine :
    (section : Option Text) (lines : List Text)
    → All OneLine lines
    → All OneLine (normal_lines section lines)
unfolding scan_lines normal_line
normal_lines-OneLine section [] h = tt
normal_lines-OneLine none (line ∷ lines) h =
    (h.0, normal_lines-OneLine (section_start line) lines h.1)
normal_lines-OneLine (some prefix) (line ∷ lines) h =
    rw (normal_lines-cons prefix line lines)
      (normal_line-OneLine prefix line h.0, normal_lines-OneLine (goes_on prefix line) lines h.1)

join_lines : (ls : List Text) → All OneLine ls → ls ≢ [] → split_lines (join (codes "\n") ls) ≡ ls
join_lines [] h n = absurd (n refl)
join_lines (l ∷ ls) h n = split_lines-join l ls h

normal_lines_some : (lines : List Text) → lines ≢ [] → normal_lines none lines ≢ []
unfolding scan_lines
normal_lines_some [] n = absurd (n refl)
normal_lines_some (line ∷ lines) n = cons_not_nil

split_lines-normalize_cnf :
    (cnf : Text) → split_lines (normalize_cnf cnf) ≡ normal_lines none (split_lines cnf)
unfolding normalize_cnf scan_cnf
split_lines-normalize_cnf cnf =
    join_lines (normal_lines none (split_lines cnf))
      (normal_lines-OneLine none (split_lines cnf) (split_lines-OneLine cnf))
      (normal_lines_some (split_lines cnf) (split_lines_some cnf))

-- Two configurations have one normal form exactly when they have the same lines, but for the values
-- of variables that are not structural.
pub normalize_cnf_same :
    (a b : Text) → (normalize_cnf a ≡ normalize_cnf b) ↔ SameLines (scan_cnf a) (scan_cnf b)
normalize_cnf_same a b = (
  λ h.
      unfold scan_cnf in
      same_scan none (split_lines a) (split_lines b)
        (sym (split_lines-normalize_cnf a) ∙ ap split_lines h ∙ split_lines-normalize_cnf b),
  λ h.
      unfold normalize_cnf in
      ap (join (codes "\n")) (SameLines-normal_line (scan_cnf a) (scan_cnf b) h),
)
