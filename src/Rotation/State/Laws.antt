-- ===== src/Rotation/State/Laws.antt =====
-- What the annotation of an open window and the digest tell.
use proxysql_on_k8s.Base.{
  ℕ, ◌≤◌, ◌≡◌, refl, sym, ap, ◌∙◌, List, [], ◌∷◌, ◌++◌, Option, none, some, length, ltb, arith,
  ◌==◌, text_eq, if◌then◌else◌, append_assoc, cons-injective,
}
use proxysql_on_k8s.Base.Int.{pos}
use proxysql_on_k8s.Base.Dict.{Dict}
use proxysql_on_k8s.Base.Text.{Text, codes, cut}
use proxysql_on_k8s.Base.Text.Cut.{Without, cut-append, colon_unique}
use proxysql_on_k8s.Base.Text.Decimal.{decimal, format_int_injective, format_int-NoColon}
use proxysql_on_k8s.Client.Sync.Variables.{value_of}
use proxysql_on_k8s.Rotation.State.{
  TimeLayout, format_tls_rotation_state, parse_tls_rotation_state, recorded_start, start_before,
  frame, frames, classify_tls_rotation, verdict_adopt, verdict_none,
}

-- A state that was written for another hash, or that lies in the future, opens a new window; one
-- that was written for the same hash is read back as the time that the layout keeps of it.
pub parse-format :
    (layout : TimeLayout) (hash want : Text) (start kept now : ℕ)
    → Without b'@' hash
    → layout.parse_time (layout.format_time start) ≡ some kept
    → parse_tls_rotation_state layout (format_tls_rotation_state layout hash start) want now
      ≡ (if hash == want then if ltb now kept then now else kept else now)
unfolding parse_tls_rotation_state format_tls_rotation_state recorded_start start_before
parse-format layout hash want start kept now h k =
    ap (recorded_start layout want now) (cut-append b'@' hash (layout.format_time start) h)
    ∙ ap (λ o. if hash == want then start_before now o else now) k

start_before-le : (now : ℕ) (t : Option ℕ) → start_before now t ≤ now
unfolding start_before
start_before-le now none = omega arith
start_before-le now (some t) = ground arith

recorded_start-le :
    (layout : TimeLayout) (want : Text) (now : ℕ) (parts : Option (Text × Text))
    → recorded_start layout want now parts ≤ now
unfolding recorded_start
recorded_start-le layout want now none = omega arith
recorded_start-le layout want now (some (hash, ts)) =
    ground (arith, start_before-le now (layout.parse_time ts))

-- No state makes a window start in the future.
pub parse_tls_rotation_state-le :
    (layout : TimeLayout) (state want : Text) (now : ℕ)
    → parse_tls_rotation_state layout state want now ≤ now
unfolding parse_tls_rotation_state
parse_tls_rotation_state-le layout state want now =
    recorded_start-le layout want now (cut b'@' state)

append-injective : (v w r s : Text) → length v ≡ length w → v ++ r ≡ w ++ s → (v ≡ w) × (r ≡ s)
append-injective [] [] r s h e = (refl, e)
append-injective [] (c ∷ w) r s h e = absurd (omega (arith, h))
append-injective (c ∷ v) [] r s h e = absurd (omega (arith, h))
append-injective (c ∷ v) (d ∷ w) r s h e = ground (arith, append-injective v w r s)

pos-injective : (m n : ℕ) → pos m ≡ pos n → m ≡ n
pos-injective m n e = cc

-- Two texts behind their lengths.
framed_injective :
    (v w r s : Text)
    → decimal (length v) ++ (codes ":" ++ (v ++ r)) ≡ decimal (length w) ++ (codes ":" ++ (w ++ s))
    → (v ≡ w) × (r ≡ s)
framed_injective v w r s e =
    let (lengths, tails) =
      colon_unique (decimal (length v)) (decimal (length w)) (v ++ r) (w ++ s)
        (format_int-NoColon (pos (length v))) (format_int-NoColon (pos (length w))) e in
    append-injective v w r s
      (pos-injective _ _ (format_int_injective (pos (length v)) (pos (length w)) lengths)) tails

frame-append :
    (k v r : Text)
    → frame k v ++ r
      ≡ decimal (length k)
        ++ (codes ":" ++ (k ++ (codes ":" ++ (decimal (length v) ++ (codes ":" ++ (v ++ r))))))
unfolding frame
frame-append k v r =
    append_assoc (decimal (length k)) _ r
    ∙ ap (λ u. decimal (length k) ++ (codes ":" ++ u))
        (append_assoc k _ r
          ∙ ap (λ u. k ++ (codes ":" ++ u)) (append_assoc (decimal (length v)) _ r))

frame_injective : (k v w r s : Text) → frame k v ++ r ≡ frame k w ++ s → (v ≡ w) × (r ≡ s)
frame_injective k v w r s e =
    let (same, tails) =
      framed_injective k k _ _ (sym (frame-append k v r) ∙ e ∙ frame-append k w s) in
    framed_injective v w r s (cons-injective tails)

abbrev pub SameAt : Dict Text Text → Dict Text Text → List Text → Type 0
SameAt a b [] = Unit
SameAt a b (k ∷ ks) = (value_of a k ≡ value_of b k) × SameAt a b ks

pub frames_injective :
    (a b : Dict Text Text) (ks : List Text) → frames a ks ≡ frames b ks → SameAt a b ks
unfolding frames
frames_injective a b [] e = tt
frames_injective a b (k ∷ ks) e =
    let (same, rest) = frame_injective k (value_of a k) (value_of b k) _ _ e in
    (same, frames_injective a b ks rest)

-- The two verdicts that need no pass over the replicas.
pub classify-adopt :
    (applied secret_hash : Text)
    → classify_tls_rotation applied secret_hash ≡ verdict_adopt
    → applied ≡ []
unfolding classify_tls_rotation
classify-adopt applied secret_hash h = ground arith

pub classify-none :
    (applied secret_hash : Text)
    → classify_tls_rotation applied secret_hash ≡ verdict_none
    → applied ≡ secret_hash
unfolding classify_tls_rotation
classify-none applied secret_hash h = ground arith

-- An open window keeps its start while the clock is not behind it.
pub parse-format_kept :
    (layout : TimeLayout) (hash : Text) (start now : ℕ)
    → Without b'@' hash
    → layout.parse_time (layout.format_time start) ≡ some start
    → start ≤ now
    → parse_tls_rotation_state layout (format_tls_rotation_state layout hash start) hash now ≡ start
parse-format_kept layout hash start now h k late =
    ground (arith, parse-format layout hash hash start start now h k, late)
