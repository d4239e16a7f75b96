-- ===== src/Prelude/CString/Digits.antt =====
-- Reading back what `%d` and `%lld` write.
use Prim.Native.Nat.{ℕ, zero, suc, ◌+◌, ◌-◌, ◌*◌, ◌/◌, ◌%◌, ◌^◌, ◌<◌}
use mathlib.Core.Path.{◌≡◌, refl, ◌∙◌, ap}
use mathlib.Core.Logic.{◌≢◌, inl, inr}
use mathlib.Core.Bool.{true, false}
use mathlib.Core.List.{[], ◌∷◌}
use native.Mathlib.Omega.{arith}
use mapper_framework_c.Prelude.Lists.{all}
use mapper_framework_c.Prelude.Tests.{ltb, ◌==◌, Bool-cases, if_holds, lt→ltb, &&-split}
use mapper_framework_c.Prelude.Int.{pos, negsuc, sub_ℕ, to_int32}
use mapper_framework_c.Prelude.CString.{
  Str, is_digit, decimal_onto, decimal, print_int, scan_digits, scan_signed, skip_space, is_space,
  atoi,
}

scan_digit :
    (d : ℕ) (s : Str) (a : ℕ) → d < 10 → scan_digits ((b'0' + d) ∷ s) a ≡ scan_digits s (a * 10 + d)
unfolding scan_digits
scan_digit d s a h = ground arith

tenth-lt : (n b : ℕ) → n < 10 * b → n / 10 < b
tenth-lt n b h = omega arith

pow_suc : (f : ℕ) → 10 ^ suc f ≡ 10 * 10 ^ f
pow_suc f = omega arith

pub scan_digits-decimal_onto :
    (f n : ℕ) (t : Str) → n < 10 ^ f → 0 < f → scan_digits (decimal_onto f n t) 0 ≡ scan_digits t n
unfolding decimal_onto
scan_digits-decimal_onto zero n t h z = absurd (omega arith)
scan_digits-decimal_onto (suc zero) n t h z =
    let y : ltb n 10 ≡ true = ground arith in
    rw y (scan_digit (n % 10) t 0 (omega arith) ∙ ap (scan_digits t) (omega arith))
scan_digits-decimal_onto (suc (suc f)) n t h z = elim (Bool-cases (ltb n 10)) [
  | inl y ↦ rw y (scan_digit (n % 10) t 0 (omega arith) ∙ ap (scan_digits t) (ground arith))
  | inr y ↦ rw y (
      scan_digits-decimal_onto (suc f) (n / 10) ((b'0' + n % 10) ∷ t)
        (tenth-lt n (10 ^ suc f) (rw (pow_suc (suc f)) at h)) (omega arith)
      ∙ scan_digit (n % 10) t (n / 10) (omega arith)
      ∙ ap (scan_digits t) (omega arith))
]

all-decimal_onto :
    (f n : ℕ) (t : Str) → all is_digit t ≡ true → all is_digit (decimal_onto f n t) ≡ true
unfolding decimal_onto
all-decimal_onto zero n t h = h
all-decimal_onto (suc f) n t h =
    let d : is_digit (b'0' + n % 10) ≡ true = ground arith in
    if_holds (λ s. all is_digit s ≡ true) (ltb n 10) (λ y. rw d h)
      (λ y. all-decimal_onto f (n / 10) ((b'0' + n % 10) ∷ t) (rw d h))

filled-decimal_onto : (f n : ℕ) (t : Str) → t ≢ [] → decimal_onto f n t ≢ []
unfolding decimal_onto
filled-decimal_onto zero n t h = h
filled-decimal_onto (suc f) n t h =
    if_holds (λ s. s ≢ []) (ltb n 10) (λ y. cc)
      (λ y. filled-decimal_onto f (n / 10) ((b'0' + n % 10) ∷ t) (cc))

filled-suc : (f n : ℕ) → decimal_onto (suc f) n [] ≢ []
unfolding decimal_onto
filled-suc f n =
    if_holds (λ s. s ≢ []) (ltb n 10) (λ y. cc)
      (λ y. filled-decimal_onto f (n / 10) ((b'0' + n % 10) ∷ []) (cc))

pub print_int-pos : (n : ℕ) → print_int (pos n) ≡ decimal n
unfolding print_int
print_int-pos n = refl

pub print_int-negsuc : (n : ℕ) → print_int (negsuc n) ≡ b'-' ∷ decimal (suc n)
unfolding print_int
print_int-negsuc n = refl

-- What a number is written as: one digit or more, that read back as the number.
pub record IsDecimal (n : ℕ) : Type 0 where
  pub first : ℕ
  pub others : Str
  pub written : decimal n ≡ first ∷ others
  pub digits : all is_digit (first ∷ others) ≡ true
  pub value : scan_digits (first ∷ others) 0 ≡ n

IsDecimal-of :
    (n : ℕ) (s : Str)
    → decimal n ≡ s
    → s ≢ []
    → all is_digit s ≡ true
    → scan_digits s 0 ≡ n
    → IsDecimal n
IsDecimal-of n [] e f a v = absurd (f refl)
IsDecimal-of n (c ∷ s) e f a v = record {
  first = c;
  others = s;
  written = e;
  digits = a;
  value = v;
}

pub digits-IsDecimal : (n : ℕ) → n < 10 ^ 20 → IsDecimal n
unfolding decimal scan_digits
digits-IsDecimal n h =
    IsDecimal-of n (decimal n) refl (filled-suc 19 n) (all-decimal_onto 20 n [] refl)
      (scan_digits-decimal_onto 20 n [] h (omega arith))

pub skip_space_id : (c : ℕ) (s : Str) → is_space c ≡ false → skip_space (c ∷ s) ≡ c ∷ s
unfolding skip_space
skip_space_id c s h = rw h refl

pub digit-is_space : (c : ℕ) → is_digit c ≡ true → is_space c ≡ false
unfolding is_space
digit-is_space c h = ground arith

pub no_minus : (c : ℕ) → is_digit c ≡ true → (c == b'-') ≡ false
no_minus c h = ground arith

pub no_plus : (c : ℕ) → is_digit c ≡ true → (c == b'+') ≡ false
no_plus c h = ground arith

scan_signed-digit :
    (c : ℕ) (s : Str)
    → is_digit c ≡ true
    → scan_digits (c ∷ s) 0 < 2 ^ 63
    → scan_signed (c ∷ s) ≡ to_int32 (pos (scan_digits (c ∷ s) 0))
unfolding scan_signed
scan_signed-digit c s h l =
    rw (no_minus c h, no_plus c h, lt→ltb (scan_digits (c ∷ s) 0) (2 ^ 63) l) refl

sub_zero : (n : ℕ) → sub_ℕ n 0 ≡ pos n
sub_zero n = ground arith

to_int32_id : (n : ℕ) → n < 2 ^ 31 → to_int32 (pos n) ≡ pos n
unfolding to_int32
to_int32_id n h =
    let r : (n % 2 ^ 32 + 2 ^ 32 - 0 % 2 ^ 32) % 2 ^ 32 ≡ n = omega arith in
    rw (r, lt→ltb n (2 ^ 31) h) (sub_zero n)

-- A number of `int` that is written is read back by `atoi`.
pub atoi-print_int : (n : ℕ) → n < 2 ^ 31 → atoi (print_int (pos n)) ≡ pos n
unfolding atoi
atoi-print_int n h =
    let d = digits-IsDecimal n (omega arith) in
    let f = (&&-split (is_digit d.first) (all is_digit d.others) d.digits).0 in
    let v = d.value in
    rw
      (
        print_int-pos n,
        d.written,
        skip_space_id d.first d.others (digit-is_space d.first f),
        scan_signed-digit d.first d.others f (rw v (omega arith)),
        v,
      )
      (to_int32_id n h)
