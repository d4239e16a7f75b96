-- ===== src/Device/JsonScan.antt =====
-- device/device.c, lines 20 to 64: the small scanner of the protocol configuration.
pub mod Values
use mapper_framework_c.Prelude.{
  ℕ, zero, suc, ◌-◌, Bool, true, false, ◌&&◌, ◌||◌, ◌==◌, if◌then◌else◌, Option, none, some, [],
  ◌∷◌, map,
}
use mapper_framework_c.Prelude.Int.{ℤ, pos, negsuc}
use mapper_framework_c.Prelude.CString.{Str, codes, to_lower, starts_with, str_eq, atoi}
use mapper_framework_c.Common.Const.{success, failure, is_zero}

-- `strcasestr`: the text from the first match on.
unfoldable pub strcasestr : Str → Str → Option Str
unfolding starts_with
strcasestr [] key = if starts_with [] (map to_lower key) then some [] else none
strcasestr (c ∷ s) key =
    let rest = strcasestr s key in
    if starts_with (map to_lower (c ∷ s)) (map to_lower key) then some (c ∷ s) else rest

-- `p = strchr(p, ':'); p++;`
unfoldable pub after_colon : Str → Option Str
after_colon [] = none
after_colon (c ∷ s) = let rest = after_colon s in if c == b':' then some s else rest

unfoldable pub skip_blanks : Str → Str
skip_blanks [] = []
skip_blanks (c ∷ s) =
    let rest = skip_blanks s in
    if c == b' ' || c == b'\t' || c == b'\r' || c == b'\n' then rest else c ∷ s

-- The two halves of the copying loop; `room` is `outsz - 1 - i`.
unfoldable pub copy_quoted : (room : ℕ) → Str → Str
copy_quoted room [] = []
copy_quoted zero (c ∷ s) = []
copy_quoted (suc room) (c ∷ []) = if c == b'"' then [] else c ∷ []
copy_quoted (suc room) (c ∷ d ∷ s) =
    let escaped = d ∷ copy_quoted room s in
    let plain = c ∷ copy_quoted room (d ∷ s) in
    if c == b'\\' then escaped else if c == b'"' then [] else plain

abbrev pub ends_bare : ℕ → Bool
ends_bare c = c == b',' || c == b'}' || c == b' ' || c == b'\r' || c == b'\n' || c == b'\t'

unfoldable pub copy_bare : (room : ℕ) → Str → Str
copy_bare room [] = []
copy_bare zero (c ∷ s) = []
copy_bare (suc room) (c ∷ s) = let plain = c ∷ copy_bare room s in if ends_bare c then [] else plain

unfoldable pub copy_value : (outsz : ℕ) → Str → Str
copy_value outsz [] = []
copy_value outsz (c ∷ s) =
    if c == b'"' then copy_quoted (outsz - 1) s else copy_bare (outsz - 1) (c ∷ s)

-- The code that is returned for the text copied: an empty one counts as not found.
abbrev found : Str → Str × ℤ
found [] = ([], failure)
found (c ∷ s) = (c ∷ s, success)

-- Behind the colon, and behind the match; `none` is a null pointer, which returns early.
abbrev from_colon : (outsz : ℕ) (out : Str) → Option Str → Str × ℤ
from_colon outsz out none = (out, failure)
from_colon outsz out (some q) = found (copy_value outsz (skip_blanks q))

abbrev from_match : (outsz : ℕ) (out : Str) → Option Str → Str × ℤ
from_match outsz out none = (out, failure)
from_match outsz out (some p) = from_colon outsz out (after_colon p)

-- `out` is what the buffer holds before the call; the pair is what it holds then, and the code.
unfoldable pub json_get_str : (json : Option Str) (key out : Str) (outsz : ℕ) → Str × ℤ
json_get_str none key out outsz = (out, failure)
json_get_str (some json) key out zero = (out, failure)
json_get_str (some json) key out (suc n) = from_match (suc n) out (strcasestr json key)

unfoldable pub json_get_int : (json : Option Str) (key : Str) (out : ℤ) → ℤ × ℤ
json_get_int json key out =
    let (buf, code) = json_get_str json key [] 32 in
    if is_zero code then (atoi buf, success) else (out, failure)

-- The Modbus register of a property; -1 for an unknown one.
unfoldable pub resolve_offset_by_name : Option Str → ℤ
resolve_offset_by_name none = failure
resolve_offset_by_name (some s) =
    if str_eq s (codes "temperature")
    then pos 1
    else if str_eq s (codes "threshold")
    then pos 2
    else failure
