-- ===== src/Base/Calls.antt =====
-- Functions that may fail, on a state: what `return nil, err` and `if err != nil` are in this
-- development. An error is its text.
pub mod Returns
use proxysql_on_k8s.Base.{Option, none, some, ◌≡◌, arith}
use proxysql_on_k8s.Base.Text.{Text}

-- A function that returns `error`.
abbrev pub Action : Type 0 → Type 0
Action S = S → S × Option Text

-- `return nil`
abbrev pub succeed : {S : Type 0} → Action S
succeed s = (s, none)

-- `if err := m; err != nil { return err }` and what follows.
infixl 5 ◌>>◌
abbrev pub ◌>>◌ : {S : Type 0} → Action S → Action S → Action S
◌>>◌ m k s = let (s', err) = m s in elim err [ none ↦ k s' | some e ↦ (s', some e) ]

-- A step that succeeds hands its state to what follows.
pub >>_none : {S : Type 0} (m k : Action S) (s s' : S) → m s ≡ (s', none) → ◌>>◌ m k s ≡ k s'
>>_none m k s s' e = ground arith

-- One that fails is the last.
pub >>_some :
    {S : Type 0} (m k : Action S) (s s' : S) (e : Text)
    → m s ≡ (s', some e)
    → ◌>>◌ m k s ≡ (s', some e)
>>_some m k s s' e h = ground arith

-- A value or an error.
pub data Result (A : Type 0) : Type 0 where
  ok : A → Result A
  failed : Text → Result A

-- A function that returns a value or an error.
abbrev pub Reader : Type 0 → Type 0 → Type 0
Reader S A = S → S × Result A

infixl 5 ◌>>=◌
abbrev pub ◌>>=◌ : {S A B : Type 0} → Reader S A → (A → Reader S B) → Reader S B
◌>>=◌ m f s = let (s', r) = m s in elim r [ ok a ↦ f a s' | failed e ↦ (s', failed e) ]

abbrev pub give : {S A : Type 0} → A → Reader S A
give a s = (s, ok a)

-- `if err := m; err != nil { return wrap(err) }`
abbrev pub attempt : {S : Type 0} → (Text → Text) → Action S → Reader S Unit
attempt wrap m s =
    let (s', err) = m s in elim err [ none ↦ (s', ok tt) | some e ↦ (s', failed (wrap e)) ]

abbrev pub wrapped : {S A : Type 0} → (Text → Text) → Reader S A → Reader S A
wrapped wrap m s =
    let (s', r) = m s in elim r [ ok a ↦ (s', ok a) | failed e ↦ (s', failed (wrap e)) ]

-- A step that cannot fail.
abbrev pub total : {S A : Type 0} → (S → S × A) → Reader S A
total f s = let (s', a) = f s in (s', ok a)

abbrev pub give_result : {S A : Type 0} → Result A → Reader S A
give_result r s = (s, r)
