-- ===== src/Prelude/CString.antt =====
-- C strings as lists of byte values without the terminating zero, and the functions of the C
-- library that the framework calls on them.
pub mod Digits
pub mod Search
use Prim.Native.Char.{code}
use Prim.Native.String.{String}
use Prim.Native.Nat.{ℕ, ◌≤◌, zero, suc, ◌+◌, ◌-◌, ◌*◌, ◌/◌, ◌%◌, ◌^◌, ◌<◌}
use mathlib.Core.Path.{◌≡◌, refl}
use mathlib.Core.Logic.{◌↔◌}
use mathlib.Core.Bool.{Bool, true, false, ◌&&◌, ◌||◌}
use mathlib.Core.List.{List, [], ◌∷◌, map}
use mathlib.Core.Option.{Option, none, some}
use native.Mathlib.Omega.{arith}
use mapper_framework_c.Prelude.Tests.{ltb, leb, ◌==◌, if◌then◌else◌}
use mapper_framework_c.Prelude.Lists.{length, take, length-take-le}
use mapper_framework_c.Prelude.Int.{ℤ, pos, negsuc, sub_ℕ, to_int32}

abbrev pub Str : Type 0
Str = List ℕ

-- The bytes of an ASCII literal.
abbrev pub codes : String → Str
codes String.[] = []
codes (String.◌∷◌ c s) = code c ∷ codes s

-- `strcmp(a, b) == 0`
unfoldable pub str_eq : Str → Str → Bool
str_eq [] [] = true
str_eq (x ∷ xs) (y ∷ ys) = x == y && str_eq xs ys
str_eq _ _ = false

pub str_eq_iff : (a b : Str) → (str_eq a b ≡ true) ↔ (a ≡ b)
unfolding str_eq
str_eq_iff (x ∷ a) (y ∷ b) = ground (arith, str_eq_iff a b)
str_eq_iff _ _ = ground arith

pub str_eq_refl : (a : Str) → str_eq a a ≡ true
str_eq_refl a = (str_eq_iff a a).1 refl

-- `tolower` and `isspace` in the "C" locale.
abbrev pub to_lower : ℕ → ℕ
to_lower c = if leb b'A' c && leb c b'Z' then c + 32 else c

unfoldable pub is_space : ℕ → Bool
is_space c = c == 32 || (leb 9 c && leb c 13)

abbrev pub is_digit : ℕ → Bool
is_digit c = leb b'0' c && leb c b'9'

-- `strcasecmp(a, b) == 0`
unfoldable pub str_case_eq : Str → Str → Bool
unfolding str_eq
str_case_eq a b = str_eq (map to_lower a) (map to_lower b)

-- `strncmp(s, p, strlen(p)) == 0`
unfoldable pub starts_with : Str → Str → Bool
starts_with s [] = true
starts_with [] (y ∷ p) = false
starts_with (x ∷ s) (y ∷ p) = x == y && starts_with s p

-- `snprintf(out, size, "%s", s)`: what `out` holds afterwards.
abbrev pub snprintf : ℕ → Str → Str
snprintf size s = take (size - 1) s

pub length-snprintf-lt : (size : ℕ) (s : Str) → 0 < size → length (snprintf size s) < size
length-snprintf-lt size s h = omega (arith, length-take-le (size - 1) s)

-- The text behind the last `c`, as `strrchr(s, c) + 1` points at; `none` is the null pointer.
unfoldable pub after_last : ℕ → Str → Option Str
after_last c [] = none
after_last c (x ∷ s) =
    let rest = after_last c s in
    elim rest [ some t ↦ some t | none ↦ if x == c then some s else none ]

-- The decimal digits of `n`, put before `acc`. Twenty digits hold every 64-bit value.
pub decimal_onto : ℕ → ℕ → Str → Str
decimal_onto zero n acc = acc
decimal_onto (suc f) n acc =
    let digits = (b'0' + n % 10) ∷ acc in
    let rest = decimal_onto f (n / 10) digits in if ltb n 10 then digits else rest

unfoldable pub decimal : ℕ → Str
unfolding decimal_onto
decimal n = decimal_onto 20 n []

-- The conversion `%d`.
unfoldable pub print_int : ℤ → Str
unfolding decimal
print_int (pos n) = decimal n
print_int (negsuc n) = b'-' ∷ decimal (suc n)

length-decimal_onto-le : (f n : ℕ) (acc : Str) → length (decimal_onto f n acc) ≤ f + length acc
unfolding decimal_onto
length-decimal_onto-le zero n acc = omega arith
length-decimal_onto-le (suc f) n acc =
    ground (arith, length-decimal_onto-le f (n / 10) ((b'0' + n % 10) ∷ acc))

pub length-print_int-le : (a : ℤ) → length (print_int a) ≤ 21
unfolding print_int
length-print_int-le (pos n) = omega (arith, length-decimal_onto-le 20 n [])
length-print_int-le (negsuc n) = omega (arith, length-decimal_onto-le 20 (suc n) [])

pub scan_digits : Str → ℕ → ℕ
scan_digits [] acc = acc
scan_digits (c ∷ s) acc =
    let rest = scan_digits s (acc * 10 + (c - b'0')) in if is_digit c then rest else acc

-- `(int) strtol(s, NULL, 10)` behind the white space; `strtol` stays within 64 bits.
scan_signed : Str → ℤ
unfolding scan_digits
scan_signed [] = pos 0
scan_signed (c ∷ s) =
    let clip = λ (n : ℕ). if ltb n (2 ^ 63) then n else 2 ^ 63 - 1 in
    let clip_neg = λ (n : ℕ). if leb n (2 ^ 63) then n else 2 ^ 63 in
    if c == b'-'
    then to_int32 (sub_ℕ 0 (clip_neg (scan_digits s 0)))
    else if c == b'+'
    then to_int32 (pos (clip (scan_digits s 0)))
    else to_int32 (pos (clip (scan_digits (c ∷ s) 0)))

unfoldable pub skip_space : Str → Str
unfolding is_space
skip_space [] = []
skip_space (c ∷ s) = let rest = skip_space s in if is_space c then rest else c ∷ s

unfoldable pub atoi : Str → ℤ
unfolding scan_signed skip_space to_int32
atoi s = scan_signed (skip_space s)
