-- ===== src/Http/Router/Scan.antt =====
-- What the conversions of `sscanf` store for a path.
use mapper_framework_c.Prelude.{
  ℕ, zero, suc, ◌≤◌, ◌≡◌, ◌≢◌, refl, ap, ◌∙◌, false, ◌==◌, Bool-cases, inl, inr, List, [], ◌∷◌,
  ◌++◌, arith, length, any,
}
use mapper_framework_c.Prelude.CString.{Str}
use mapper_framework_c.Http.Router.{store, segment, scan_segments}

-- A segment of a path that fits a conversion of that width.
pub record IsSegment (width : ℕ) (s : Str) : Type 0 where
  pub filled : s ≢ []
  pub fits : length s ≤ width
  pub unslashed : any (λ c. c == b'/') s ≡ false

-- The rest of a path: nothing, or a slash and more.
abbrev pub IsRest : Str → Type 0
IsRest [] = Unit
IsRest (c ∷ s) = c ≡ b'/'

segment-append :
    (w : ℕ) (s rest : Str)
    → length s ≤ w
    → any (λ c. c == b'/') s ≡ false
    → IsRest rest
    → segment w (s ++ rest) ≡ (s, rest)
unfolding segment
segment-append zero [] rest l u r = refl
segment-append (suc w) [] [] l u r = refl
segment-append (suc w) [] (c ∷ rest) l u r = ground arith
segment-append zero (c ∷ s) rest l u r = absurd (omega arith)
segment-append (suc w) (c ∷ s) rest l u r = ground (arith, segment-append w s rest)

-- One segment is stored, and the scan goes on behind it.
pub scan_segments-cons :
    (w : ℕ) (ws : List ℕ) (s rest : Str)
    → IsSegment w s
    → IsRest rest
    → scan_segments (w ∷ ws) (b'/' ∷ (s ++ rest)) ≡ s ∷ scan_segments ws rest
unfolding scan_segments
scan_segments-cons w ws [] rest h r = absurd (h.filled refl)
scan_segments-cons w ws (c ∷ s) rest h r = rw (segment-append w (c ∷ s) rest h.fits h.unslashed r)

-- Nothing is stored where the path does not go on with a slash.
pub scan_segments-skipped :
    (w : ℕ) (ws : List ℕ) (c : ℕ) (s : Str)
    → (c == b'/') ≡ false
    → scan_segments (w ∷ ws) (c ∷ s) ≡ []
unfolding scan_segments
scan_segments-skipped w ws c s h = rw h

-- A segment list as a path: a slash before each.
abbrev pub path : List Str → Str
path [] = []
path (s ∷ ss) = b'/' ∷ (s ++ path ss)

-- Each segment fits its width.
abbrev pub Fit : List ℕ → List Str → Type 0
Fit [] [] = Unit
Fit (w ∷ ws) (s ∷ ss) = IsSegment w s × Fit ws ss
Fit _ _ = ⊥

path-IsRest : (ss : List Str) → IsRest (path ss)
path-IsRest [] = tt
path-IsRest (s ∷ ss) = refl

-- Scanning a path of fitting segments stores these segments.
pub scan_segments-path : (ws : List ℕ) (ss : List Str) → Fit ws ss → scan_segments ws (path ss) ≡ ss
unfolding scan_segments
scan_segments-path [] [] f = refl
scan_segments-path [] (s ∷ ss) f = absurd f
scan_segments-path (w ∷ ws) [] f = absurd f
scan_segments-path (w ∷ ws) (s ∷ ss) f =
    scan_segments-cons w ws s (path ss) f.0 (path-IsRest ss)
    ∙ ap (λ r. s ∷ r) (scan_segments-path ws ss f.1)

-- A path with fewer segments than conversions: those there are are stored.
pub scan_segments-fewer :
    (ws vs : List ℕ) (ss : List Str) → Fit ws ss → scan_segments (ws ++ vs) (path ss) ≡ ss
unfolding scan_segments
scan_segments-fewer [] [] [] f = refl
scan_segments-fewer [] (v ∷ vs) [] f = refl
scan_segments-fewer [] vs (s ∷ ss) f = absurd f
scan_segments-fewer (w ∷ ws) vs [] f = absurd f
scan_segments-fewer (w ∷ ws) vs (s ∷ ss) f =
    scan_segments-cons w (ws ++ vs) s (path ss) f.0 (path-IsRest ss)
    ∙ ap (λ r. s ∷ r) (scan_segments-fewer ws vs ss f.1)

length-segment-le : (w : ℕ) (s : Str) → length (segment w s).0 ≤ w
unfolding segment
length-segment-le zero s = omega arith
length-segment-le (suc w) [] = omega arith
length-segment-le (suc w) (c ∷ s) = ground (arith, length-segment-le w s)

unslashed-segment : (w : ℕ) (s : Str) → any (λ c. c == b'/') (segment w s).0 ≡ false
unfolding segment
unslashed-segment zero s = refl
unslashed-segment (suc w) [] = refl
unslashed-segment (suc w) (c ∷ s) = ground (arith, unslashed-segment w s)

-- Each segment that was stored fits its width; there may be fewer segments than widths.
abbrev pub Stored : List ℕ → List Str → Type 0
Stored ws [] = Unit
Stored [] (s ∷ ss) = ⊥
Stored (w ∷ ws) (s ∷ ss) = IsSegment w s × Stored ws ss

store-Stored :
    (w : ℕ) (ws : List ℕ) (s : Str) (ss : List Str)
    → length s ≤ w
    → any (λ c. c == b'/') s ≡ false
    → Stored ws ss
    → Stored (w ∷ ws) (store s ss)
store-Stored w ws [] ss l u h = tt
store-Stored w ws (d ∷ t) ss l u h =
    (record { filled = (λ e. ground (arith, e)); fits = l; unslashed = u }, h)

-- Whatever the text is, what is stored are segments that fit: no buffer is overrun.
pub scan_segments-Stored : (ws : List ℕ) (s : Str) → Stored ws (scan_segments ws s)
unfolding scan_segments
scan_segments-Stored [] s = tt
scan_segments-Stored (w ∷ ws) [] = tt
scan_segments-Stored (w ∷ ws) (c ∷ s) = elim (Bool-cases (c == b'/')) [
  | inl y ↦ rw y (
      store-Stored w ws (segment w s).0 (scan_segments ws (segment w s).1) (length-segment-le w s)
        (unslashed-segment w s) (scan_segments-Stored ws (segment w s).1))
  | inr n ↦ rw n tt
]
