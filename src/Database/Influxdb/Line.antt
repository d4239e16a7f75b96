-- ===== src/Database/Influxdb/Line.antt =====
-- The line that is sent to InfluxDB, and when it is written within its array.
use mapper_framework_c.Prelude.{
  ℕ, ◌+◌, ◌≤◌, ◌<◌, ◌≡◌, ◌≢◌, refl, ap, sym, ◌⊎◌, ◌∙◌, true, false, leb, List, [], ◌∷◌, ◌++◌,
  length, take, length-append, arith, zero, suc, inl, inr,
}
use mapper_framework_c.Prelude.CString.{Str}
use mapper_framework_c.Common.DataModel.{DataModel}
use mapper_framework_c.Common.Outcome.{fault, done}
use mapper_framework_c.Database.Influxdb.{InfluxdbDataConfig, line_pieces, append_pieces}

-- The pieces as one text.
unfoldable pub joined : List Str → Str
joined [] = []
joined (p ∷ ps) = p ++ joined ps

-- The length before the last piece.
unfoldable pub length_before_last : List Str → ℕ
length_before_last [] = 0
length_before_last (p ∷ []) = 0
length_before_last (p ∷ q ∷ ps) = length p + length_before_last (q ∷ ps)

take-append : (n : ℕ) (s t : Str) → take n (take n s ++ t) ≡ take n (s ++ t)
take-append zero s t = refl
take-append (suc n) [] t = refl
take-append (suc n) (c ∷ s) t = ap (λ x. c ∷ x) (take-append n s t)

append_assoc : (s t u : Str) → (s ++ t) ++ u ≡ s ++ (t ++ u)
append_assoc [] t u = refl
append_assoc (c ∷ s) t u = ap (λ x. c ∷ x) (append_assoc s t u)

append_nil : (s : Str) → s ++ [] ≡ s
append_nil [] = refl
append_nil (c ∷ s) = ap (λ x. c ∷ x) (append_nil s)

append-step :
    (offset : ℕ) (line p : Str) (ps : List Str)
    → offset ≤ 1024
    → append_pieces offset line (p ∷ ps)
      ≡ append_pieces (offset + length p) (take 1023 (line ++ p)) ps
unfolding append_pieces
append-step offset line p ps h = let l : leb offset 1024 ≡ true = ground arith in rw l refl

append-fault :
    (offset : ℕ) (line p : Str) (ps : List Str)
    → 1024 < offset
    → append_pieces offset line (p ∷ ps) ≡ fault
unfolding append_pieces
append-fault offset line p ps h = let l : leb offset 1024 ≡ false = ground arith in rw l refl

-- What the pieces leave: the line as a prefix of all, or a write outside of the array.
abbrev pub whole_line : (offset : ℕ) (line : Str) → List Str → Str × ℕ
whole_line offset line ps = (take 1023 (line ++ joined ps), offset + length (joined ps))

append_pieces-one :
    (offset : ℕ) (line p : Str)
    → offset ≤ 1024
    → append_pieces offset line (p ∷ []) ≡ done (whole_line offset line (p ∷ []))
unfolding append_pieces joined
append_pieces-one offset line p h =
    append-step offset line p [] h
    ∙ ap (λ x. done (take 1023 (line ++ x), offset + length x)) (sym (append_nil p))

line-step :
    (offset : ℕ) (line p : Str) (ps : List Str)
    → whole_line (offset + length p) (take 1023 (line ++ p)) ps ≡ whole_line offset line (p ∷ ps)
unfolding joined
line-step offset line p ps =
    let t =
      take-append 1023 (line ++ p) (joined ps) ∙ ap (take 1023) (append_assoc line p (joined ps)) in
    let l : offset + length p + length (joined ps) ≡ offset + length (p ++ joined ps) =
      omega (arith, length-append p (joined ps)) in
    rw (t, l) refl

le-or-lt : (a b : ℕ) → (a ≤ b) ⊎ (b < a)
le-or-lt a b = ground arith

append_pieces-within :
    (offset : ℕ) (line p : Str) (ps : List Str)
    → offset + length_before_last (p ∷ ps) ≤ 1024
    → append_pieces offset line (p ∷ ps) ≡ done (whole_line offset line (p ∷ ps))
unfolding length_before_last
append_pieces-within offset line p [] h = append_pieces-one offset line p (omega arith)
append_pieces-within offset line p (q ∷ ps) h =
    append-step offset line p (q ∷ ps) (omega arith)
    ∙ append_pieces-within (offset + length p) (take 1023 (line ++ p)) q ps (omega arith)
    ∙ ap done (line-step offset line p (q ∷ ps))

append_pieces-beyond :
    (offset : ℕ) (line p : Str) (ps : List Str)
    → 1024 < offset + length_before_last (p ∷ ps)
    → append_pieces offset line (p ∷ ps) ≡ fault
unfolding length_before_last
append_pieces-beyond offset line p [] h = append-fault offset line p [] (omega arith)
append_pieces-beyond offset line p (q ∷ ps) h = elim (le-or-lt offset 1024) [
  | inl l ↦
      append-step offset line p (q ∷ ps) l
      ∙ append_pieces-beyond (offset + length p) (take 1023 (line ++ p)) q ps (omega arith)
  | inr l ↦ append-fault offset line p (q ∷ ps) l
]

filled : (c : InfluxdbDataConfig) (dm : DataModel) → line_pieces c dm ≢ []
unfolding line_pieces
filled c dm = cc

pieces_cases :
    (ps : List Str)
    → ps ≢ []
    → (length_before_last ps ≤ 1024 → append_pieces 0 [] ps ≡ done (whole_line 0 [] ps))
      × (1024 < length_before_last ps → append_pieces 0 [] ps ≡ fault)
pieces_cases [] f = absurd (f refl)
pieces_cases (p ∷ ps) f = (
  λ h. append_pieces-within 0 [] p ps (omega arith),
  λ h. append_pieces-beyond 0 [] p ps (omega arith),
)

-- The line of a value is the first 1023 bytes of its measurement, tags and field, one behind the
-- other, if all before the field take at most 1024 bytes; if they take more, the code writes outside
-- of the array.
pub append_pieces_lem :
    (c : InfluxdbDataConfig) (dm : DataModel)
    → (length_before_last (line_pieces c dm) ≤ 1024
        → append_pieces 0 [] (line_pieces c dm) ≡ done (whole_line 0 [] (line_pieces c dm)))
      × (1024 < length_before_last (line_pieces c dm)
          → append_pieces 0 [] (line_pieces c dm) ≡ fault)
append_pieces_lem c dm = pieces_cases (line_pieces c dm) (filled c dm)
