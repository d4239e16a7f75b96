-- ===== src/Common/Dataconverter/RoundTrip.antt =====
-- Values that are written and read again, and the names of packed values.
use mapper_framework_c.Prelude.{
  ℕ, ◌^◌, ◌-◌, ◌≤◌, ◌<◌, ◌≡◌, ◌≢◌, refl, ap, suc, Bool, true, false, ◌==◌, some, [], ◌∷◌, ◌++◌,
  length, all, any, arith, take_all, Bool-cases, inl, inr, any-append, lt→ltb, &&-split,
}
use mapper_framework_c.Prelude.Int.{ℤ, pos, negsuc}
use mapper_framework_c.Prelude.CString.{
  Str, codes, str_eq, str_eq_iff, snprintf, is_space, print_int, is_digit, scan_digits,
  length-print_int-le,
}
use mapper_framework_c.Prelude.CString.Digits.{
  print_int-pos, print_int-negsuc, IsDecimal, digits-IsDecimal, skip_space_id, digit-is_space,
  no_minus, no_plus,
}
use mapper_framework_c.Prelude.CString.Search.{after_last-append}
use mapper_framework_c.Common.Const.{success, failure}
use mapper_framework_c.Common.Dataconverter.{
  digits_end, clip, read_digits, strtoll, convert_to_int64, convert_to_bool, int64_to_string,
  bool_to_string, get_message_type_name, type_of_name, any_type_unknown, Unpack, decode_any_value,
}

digits_end-all : (s : Str) → all is_digit s ≡ true → digits_end s ≡ []
unfolding digits_end
digits_end-all [] h = refl
digits_end-all (c ∷ s) h = ground (arith, digits_end-all s)

read_digits-all :
    (negative : Bool) (whole : Str) (c : ℕ) (s : Str)
    → all is_digit (c ∷ s) ≡ true
    → read_digits negative whole (c ∷ s) ≡ (clip negative (scan_digits (c ∷ s) 0), [])
read_digits-all negative whole c s h =
    let d : is_digit c ≡ true = ground arith in rw (d, digits_end-all (c ∷ s) h) refl

minus_no_space : is_space b'-' ≡ false
unfolding is_space
minus_no_space = refl

-- The integers of `int64_t`.
pub data IsInt64 : ℤ → Type 0 where
  of_pos : {n : ℕ} → n < 2 ^ 63 → IsInt64 (pos n)
  of_negsuc : {n : ℕ} → n < 2 ^ 63 → IsInt64 (negsuc n)

clip_id : (n : ℕ) → n < 2 ^ 63 → clip false n ≡ pos n
clip_id n h = rw (lt→ltb n (2 ^ 63) h) refl

clip_negsuc : (n : ℕ) → n < 2 ^ 63 → clip true (suc n) ≡ negsuc n
clip_negsuc n h = ground arith

strtoll-digits : (n : ℕ) (d : IsDecimal n) → n < 2 ^ 63 → strtoll (d.first ∷ d.others) ≡ (pos n, [])
unfolding strtoll
strtoll-digits n d h =
    let f : is_digit d.first ≡ true =
      (&&-split (is_digit d.first) (all is_digit d.others) d.digits).0 in
    rw
      (
        skip_space_id d.first d.others (digit-is_space d.first f),
        no_minus d.first f,
        no_plus d.first f,
        read_digits-all false (d.first ∷ d.others) d.first d.others d.digits,
        d.value,
      )
      (ap (λ a. (a, [])) (clip_id n h))

strtoll-minus :
    (n : ℕ) (d : IsDecimal (suc n))
    → n < 2 ^ 63
    → strtoll (b'-' ∷ d.first ∷ d.others) ≡ (negsuc n, [])
unfolding strtoll
strtoll-minus n d h =
    rw
      (
        skip_space_id b'-' (d.first ∷ d.others) minus_no_space,
        read_digits-all true (b'-' ∷ d.first ∷ d.others) d.first d.others d.digits,
        d.value,
      )
      (ap (λ a. (a, [])) (clip_negsuc n h))

strtoll-print_int : (a : ℤ) → IsInt64 a → strtoll (print_int a) ≡ (a, [])
strtoll-print_int (pos n) (of_pos h) =
    let d = digits-IsDecimal n (omega arith) in
    rw (print_int-pos n, d.written) (strtoll-digits n d h)
strtoll-print_int (negsuc n) (of_negsuc h) =
    let d = digits-IsDecimal (suc n) (omega arith) in
    rw (print_int-negsuc n, d.written) (strtoll-minus n d h)

print_int-filled : (a : ℤ) → IsInt64 a → 0 < length (print_int a)
print_int-filled (pos n) (of_pos h) =
    let d = digits-IsDecimal n (omega arith) in rw (print_int-pos n, d.written) (omega arith)
print_int-filled (negsuc n) (of_negsuc h) = rw (print_int-negsuc n) (omega arith)

-- Every 64-bit integer, written to a buffer of 22 bytes or more, is written without an error, and
-- the text is read back as that integer without an error.
pub convert_to_int64-int64_to_string :
    (a : ℤ) (bufsize : ℕ)
    → IsInt64 a
    → 22 ≤ bufsize
    → ((int64_to_string a bufsize).0 ≡ success)
      × (convert_to_int64 (some (int64_to_string a bufsize).1) ≡ (success, some a))
unfolding int64_to_string convert_to_int64
convert_to_int64-int64_to_string a bufsize i h =
    let l = length-print_int-le a in
    let whole : snprintf bufsize (print_int a) ≡ print_int a =
      take_all (bufsize - 1) (print_int a) (omega arith) in
    (
      rw (lt→ltb 0 _ (print_int-filled a i), lt→ltb (length (print_int a)) bufsize (omega arith))
          refl,
      rw (whole, strtoll-print_int a i) refl,
    )

-- Both values of `bool` are written to a buffer of 6 bytes or more and read back without an error.
pub convert_to_bool-bool_to_string :
    (b : Bool) (bufsize : ℕ)
    → 6 ≤ bufsize
    → ((bool_to_string b bufsize).0 ≡ success)
      × (convert_to_bool (some (bool_to_string b bufsize).1) ≡ (success, some b))
unfolding bool_to_string convert_to_bool str_eq
convert_to_bool-bool_to_string true bufsize h = (
  rw (lt→ltb 4 bufsize (omega arith)) refl,
  rw (take_all (bufsize - 1) (codes "true") (omega arith)) refl,
)
convert_to_bool-bool_to_string false bufsize h = (
  rw (lt→ltb 5 bufsize (omega arith)) refl,
  rw (take_all (bufsize - 1) (codes "false") (omega arith)) refl,
)

abbrev is_dot : ℕ → Bool
is_dot c = c == b'.'

dotted : (s t : Str) → any is_dot (s ++ b'.' ∷ t) ≡ true
dotted s t = ground (arith, any-append is_dot s (b'.' ∷ t))

filled-append : (s : Str) (c : ℕ) (t : Str) → s ++ c ∷ t ≢ []
filled-append [] c t = cc
filled-append (x ∷ s) c t = cc

dotted-str_eq : (n k : Str) → any is_dot n ≡ true → any is_dot k ≡ false → str_eq n k ≡ false
dotted-str_eq n k h i = elim (Bool-cases (str_eq n k)) [
  | inl y ↦ let e : n ≡ k = (str_eq_iff n k).0 y in absurd (cc)
  | inr y ↦ y
]

type_of_name-dotted : (n : Str) → any is_dot n ≡ true → type_of_name n ≡ any_type_unknown
type_of_name-dotted n h =
    rw
      (
        dotted-str_eq n (codes "Int32Value") h refl,
        dotted-str_eq n (codes "StringValue") h refl,
        dotted-str_eq n (codes "FloatValue") h refl,
        dotted-str_eq n (codes "BoolValue") h refl,
        dotted-str_eq n (codes "Int64Value") h refl,
      )
      refl

get_message_type_name-append :
    (host n : Str)
    → any (λ x. x == b'/') n ≡ false
    → n ≢ []
    → get_message_type_name (host ++ b'/' ∷ n) ≡ n
unfolding get_message_type_name
get_message_type_name-append host [] h f = absurd (f refl)
get_message_type_name-append host (c ∷ n) h f =
    rw (get_message_type_name, after_last-append b'/' host (c ∷ n) h) refl

-- A packed value whose address ends in the full name of a message, as the protocol writes it, with a
-- dot before the bare name and a slash before all, is never unpacked: the name that the code compares
-- with is the full one, and -1 is returned.
pub decode_any_value-full :
    (u : Unpack) (host space name bytes : Str)
    → any (λ x. x == b'/') (space ++ b'.' ∷ name) ≡ false
    → (decode_any_value u (
        some
          (record { type_url = host ++ b'/' ∷ (space ++ b'.' ∷ name); value_data = bytes }))).code
      ≡ failure
unfolding decode_any_value
decode_any_value-full u host space name bytes h =
    let n = space ++ b'.' ∷ name in
    rw
      (
        get_message_type_name-append host n h (filled-append space (b'.') name),
        type_of_name-dotted n (dotted space name),
      )
      refl
