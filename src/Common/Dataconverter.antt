-- ===== src/Common/Dataconverter.antt =====
-- common/dataconverter.c: conversions between texts and values. The conversions of floating-point
-- numbers are left out.
pub mod RoundTrip
use mapper_framework_c.Prelude.{
  ℕ, ◌^◌, ◌-◌, Bool, true, false, ◌||◌, ltb, leb, ◌==◌, if◌then◌else◌, Option, none, some, List, [],
  ◌∷◌, length,
}
use mapper_framework_c.Prelude.Int.{ℤ, pos, sub_ℕ}
use mapper_framework_c.Prelude.CString.{
  Str, codes, str_eq, snprintf, after_last, print_int, is_digit, scan_digits, skip_space,
}
use mapper_framework_c.Common.Const.{success, failure}

-- The text behind the digits.
unfoldable pub digits_end : Str → Str
digits_end [] = []
digits_end (c ∷ s) = let rest = digits_end s in if is_digit c then rest else c ∷ s

-- The bounds of `long long`.
abbrev pub clip : (negative : Bool) → ℕ → ℤ
clip true n = sub_ℕ 0 (if leb n (2 ^ 63) then n else 2 ^ 63)
clip false n = pos (if ltb n (2 ^ 63) then n else 2 ^ 63 - 1)

-- Behind the sign: without a digit nothing is read, and the end is the whole text.
abbrev pub read_digits : (negative : Bool) (whole : Str) → Str → ℤ × Str
read_digits negative whole [] = (pos 0, whole)
read_digits negative whole (c ∷ s) =
    if is_digit c
    then (clip negative (scan_digits (c ∷ s) 0), digits_end (c ∷ s))
    else (pos 0, whole)

abbrev pub read_sign : (whole : Str) → Str → ℤ × Str
read_sign whole [] = (pos 0, whole)
read_sign whole (c ∷ s) =
    if c == b'-'
    then read_digits true whole s
    else if c == b'+'
    then read_digits false whole s
    else read_digits false whole (c ∷ s)

-- `strtoll(s, &end, 10)`: the value and the text at `end`.
unfoldable pub strtoll : Str → ℤ × Str
strtoll s = read_sign s (skip_space s)

abbrev pub is_empty : Str → Bool
is_empty [] = true
is_empty (c ∷ s) = false

-- The code and what `*out` is afterwards, if it is written.
unfoldable pub convert_to_int64 : Option Str → ℤ × Option ℤ
unfolding strtoll
convert_to_int64 none = (failure, none)
convert_to_int64 (some v) =
    (if is_empty (strtoll v).1 then success else failure, some (strtoll v).0)

unfoldable pub convert_to_bool : Option Str → ℤ × Option Bool
convert_to_bool none = (failure, none)
convert_to_bool (some v) =
    if str_eq v (codes "true") || str_eq v (codes "1")
    then (success, some true)
    else if str_eq v (codes "false") || str_eq v (codes "0")
    then (success, some false)
    else (failure, none)

-- The code, and what a buffer of `bufsize` bytes holds afterwards, where there is one.
abbrev print_to : (bufsize : ℕ) → Str → ℤ × Str
print_to bufsize t = (
  if ltb 0 (length t) then if ltb (length t) bufsize then success else failure else failure,
  snprintf bufsize t,
)

unfoldable pub int64_to_string : ℤ → (bufsize : ℕ) → ℤ × Str
int64_to_string value bufsize = print_to bufsize (print_int value)

unfoldable pub bool_to_string : Bool → (bufsize : ℕ) → ℤ × Str
bool_to_string true bufsize = print_to bufsize (codes "true")
bool_to_string false bufsize = print_to bufsize (codes "false")

unfoldable pub get_message_type_name : Str → Str
get_message_type_name type_url = elim (after_last b'/' type_url) [
  | none ↦ []
  | some [] ↦ []
  | some (c ∷ s) ↦ c ∷ s
]

pub data AnyValueType : Type 0 where
  any_type_unknown any_type_int32 any_type_string any_type_float any_type_bool any_type_int64 :
      AnyValueType

-- What the generated code unpacks a value to, by its type; `none` where it fails. The value itself
-- is passed on as it is.
pub record Unpack : Type 1 where
  pub Value : Type 0
  pub unpack : AnyValueType → Str → Option Value

pub record GrpcAny : Type 0 where
  pub type_url : Str
  pub value_data : Str

abbrev pub type_of_name : Str → AnyValueType
type_of_name n =
    if str_eq n (codes "Int32Value")
    then any_type_int32
    else if str_eq n (codes "StringValue")
    then any_type_string
    else if str_eq n (codes "FloatValue")
    then any_type_float
    else if str_eq n (codes "BoolValue")
    then any_type_bool
    else if str_eq n (codes "Int64Value")
    then any_type_int64
    else any_type_unknown

-- `*out_value` and `*type`, where they are written.
pub record Decoded (Value : Type 0) : Type 0 where
  pub code : ℤ
  pub out_value : Option Value
  pub out_type : Option AnyValueType

abbrev unpacked : (u : Unpack) → AnyValueType → Str → Decoded u.Value
unpacked u any_type_unknown bytes = record {
  code = failure;
  out_value = none;
  out_type = some any_type_unknown;
}
unpacked u t bytes = elim (u.unpack t bytes) [
  | none ↦ record { code = failure; out_value = none; out_type = none }
  | some v ↦ record { code = success; out_value = some v; out_type = some t }
]

unfoldable pub decode_any_value : (u : Unpack) → Option GrpcAny → Decoded u.Value
decode_any_value u none = record { code = failure; out_value = none; out_type = none }
decode_any_value u (some any) =
    unpacked u (type_of_name (get_message_type_name any.type_url)) any.value_data
