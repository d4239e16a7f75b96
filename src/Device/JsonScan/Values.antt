-- ===== src/Device/JsonScan/Values.antt =====
-- What the scanner finds, and what it takes by mistake.
use mapper_framework_c.Prelude.{
  ℕ, zero, suc, ◌-◌, ◌<◌, ◌≤◌, ◌≡◌, ◌≢◌, refl, Bool, true, false, not, ◌||◌, ◌==◌, Option, none,
  some, [], ◌∷◌, ◌++◌, arith, length, all, any,
}
use mapper_framework_c.Prelude.CString.{Str}
use mapper_framework_c.Common.Const.{success}
use mapper_framework_c.Device.JsonScan.{
  strcasestr, after_colon, skip_blanks, copy_quoted, copy_bare, copy_value, found, from_colon,
  from_match, json_get_str,
}

-- Neither a quote nor a backslash.
abbrev pub is_plain : ℕ → Bool
is_plain c = not (c == b'"' || c == b'\\')

copy_quoted-plain :
    (room : ℕ) (v rest : Str)
    → all is_plain v ≡ true
    → length v ≤ room
    → copy_quoted room (v ++ (b'"' ∷ rest)) ≡ v
unfolding copy_quoted
copy_quoted-plain zero [] [] h l = refl
copy_quoted-plain zero [] (d ∷ rest) h l = refl
copy_quoted-plain (suc room) [] [] h l = refl
copy_quoted-plain (suc room) [] (d ∷ rest) h l = refl
copy_quoted-plain zero (c ∷ v) rest h l = absurd (omega arith)
copy_quoted-plain (suc room) (c ∷ []) rest h l = ground (arith, copy_quoted-plain room [] rest)
copy_quoted-plain (suc room) (c ∷ d ∷ v) rest h l =
    ground (arith, copy_quoted-plain room (d ∷ v) rest)

after_colon-append :
    (s rest : Str) → any (λ c. c == b':') s ≡ false → after_colon (s ++ (b':' ∷ rest)) ≡ some rest
unfolding after_colon
after_colon-append [] rest h = refl
after_colon-append (c ∷ s) rest h = ground (arith, after_colon-append s rest)

copy_value-quote : (n : ℕ) (s : Str) → copy_value (suc n) (skip_blanks (b'"' ∷ s)) ≡ copy_quoted n s
unfolding copy_value skip_blanks
copy_value-quote n s = ground arith

-- If the first place where the key's letters occur is followed, with no colon between, by a colon
-- and a quoted plain value that fits the buffer, then that value is found: whatever the text
-- between is, so also where the letters are only part of another key.
pub json_get_str-quoted :
    (json key out between v rest : Str) (outsz : ℕ)
    → strcasestr json key ≡ some (between ++ (b':' ∷ b'"' ∷ (v ++ (b'"' ∷ rest))))
    → any (λ c. c == b':') between ≡ false
    → all is_plain v ≡ true
    → v ≢ []
    → length v < outsz
    → json_get_str (some json) key out outsz ≡ (v, success)
unfolding json_get_str
json_get_str-quoted json key out between v rest zero e h p ne l = absurd (omega arith)
json_get_str-quoted json key out between v rest (suc n) e h p ne l =
    rw (e, after_colon-append between (b'"' ∷ (v ++ (b'"' ∷ rest))) h)
      (rw (copy_value-quote n (v ++ (b'"' ∷ rest)), copy_quoted-plain n v rest p (omega arith))
        (last v ne))
  where
    last : (v : Str) → v ≢ [] → found v ≡ (v, success)
    last [] ne = absurd (ne refl)
    last (c ∷ v) ne = refl

length-copy_quoted-le : (room : ℕ) (s : Str) → length (copy_quoted room s) ≤ room
unfolding copy_quoted
length-copy_quoted-le room [] = omega arith
length-copy_quoted-le zero (c ∷ s) = omega arith
length-copy_quoted-le (suc room) (c ∷ []) = ground arith
length-copy_quoted-le (suc room) (c ∷ d ∷ s) =
    ground (arith, length-copy_quoted-le room s, length-copy_quoted-le room (d ∷ s))

length-copy_bare-le : (room : ℕ) (s : Str) → length (copy_bare room s) ≤ room
unfolding copy_bare
length-copy_bare-le room [] = omega arith
length-copy_bare-le zero (c ∷ s) = omega arith
length-copy_bare-le (suc room) (c ∷ s) = ground (arith, length-copy_bare-le room s)

length-copy_value-lt : (outsz : ℕ) (s : Str) → 0 < outsz → length (copy_value outsz s) < outsz
unfolding copy_value
length-copy_value-lt outsz [] h = h
length-copy_value-lt outsz (c ∷ s) h =
    ground (arith, length-copy_quoted-le (outsz - 1) s, length-copy_bare-le (outsz - 1) (c ∷ s))

found-fst : (v : Str) → (found v).0 ≡ v
found-fst [] = refl
found-fst (c ∷ v) = refl

-- The buffer is never overrun: if it holds its old text with the zero, it holds the new one.
pub length-json_get_str-lt :
    (json : Option Str) (key out : Str) (outsz : ℕ)
    → length out < outsz
    → length (json_get_str json key out outsz).0 < outsz
unfolding json_get_str
length-json_get_str-lt none key out outsz h = h
length-json_get_str-lt (some json) key out zero h = h
length-json_get_str-lt (some json) key out (suc n) h = behind_match (strcasestr json key)
  where
    behind_colon : (o : Option Str) → length (from_colon (suc n) out o).0 < suc n
    behind_colon none = h
    behind_colon (some q) =
        rw found-fst (length-copy_value-lt (suc n) (skip_blanks q) (omega arith))

    behind_match : (o : Option Str) → length (from_match (suc n) out o).0 < suc n
    behind_match none = h
    behind_match (some p) = behind_colon (after_colon p)
