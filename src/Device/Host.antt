-- ===== src/Device/Host.antt =====
-- device/device.c, lines 68 to 139: cleaning of the host text and choice of the port.
pub mod Bounds
use mapper_framework_c.Prelude.{
  ℕ, suc, Bool, true, false, not, ◌&&◌, ◌||◌, ltb, leb, ◌==◌, if◌then◌else◌, Option, none, some,
  List, [], ◌∷◌, or_default,
}
use mapper_framework_c.Prelude.Int.{ℤ, pos, negsuc, leb_ℤ, ltb_ℤ}
use mapper_framework_c.Prelude.CString.{Str, codes, is_space, is_digit, skip_space, snprintf, atoi}

-- The loop behind the text: white space at the end is cut.
trim_end : Str → Str
trim_end [] = []
trim_end (c ∷ s) = keep (trim_end s)
  where
    keep : Str → Str
    keep [] = if is_space c then [] else c ∷ []
    keep (d ∷ t) = c ∷ d ∷ t

unfoldable pub trim_str : Str → Str
unfolding trim_end
trim_str s = trim_end (skip_space s)

unfoldable pub is_host_char : ℕ → Bool
is_host_char c =
    (leb b'0' c && leb c b'9')
    || (leb b'A' c && leb c b'Z')
    || (leb b'a' c && leb c b'z')
    || c == b'.'
    || c == b'-'
    || c == b'_'
    || c == b':'

unfoldable pub sanitize_host : Str → Str
sanitize_host [] = []
sanitize_host (c ∷ s) = if is_host_char c then c ∷ sanitize_host s else sanitize_host s

abbrev is_escape_letter : ℕ → Bool
is_escape_letter c = c == b'n' || c == b't' || c == b'r'

-- One round of the loop for each pattern; a text of one byte has `s[1] == 0`.
unfoldable pub cleanup_escape_prefix : Str → Str
cleanup_escape_prefix [] = []
cleanup_escape_prefix (c ∷ []) = c ∷ []
cleanup_escape_prefix (c ∷ d ∷ []) =
    let one = cleanup_escape_prefix (d ∷ []) in
    if is_escape_letter c && is_digit d then one else c ∷ d ∷ []
cleanup_escape_prefix (c ∷ d ∷ e ∷ s) =
    let one = cleanup_escape_prefix (d ∷ e ∷ s) in
    let two = cleanup_escape_prefix (e ∷ s) in
    if not (is_escape_letter c)
    then c ∷ d ∷ e ∷ s
    else if is_digit d
    then one
    else if is_escape_letter d && is_digit e
    then two
    else c ∷ d ∷ e ∷ s

abbrev pub is_port : ℤ → Bool
is_port p = ltb_ℤ (pos 0) p && leb_ℤ p (pos 65535)

-- Another source of the host is asked only where the text so far is empty.
abbrev or_else : Str → Str → Str
or_else [] t = t
or_else (c ∷ s) t = c ∷ s

abbrev or_empty : Option Str → Str
or_empty s = or_default s []

-- `env_host` and `env_port` are MAPPER_MODBUS_ADDR and MAPPER_MODBUS_PORT; an empty variable
-- counts as an unset one.
clean_host : ℕ → Str → Str
unfolding trim_str sanitize_host
clean_host size s = sanitize_host (trim_str (snprintf size s))

unfoldable pub normalize_host : (size : ℕ) (env_host raw_host : Option Str) → Str
unfolding clean_host
normalize_host size env_host raw_host =
    or_else (or_else (clean_host size (or_empty raw_host)) (clean_host size (or_empty env_host)))
      (snprintf size (codes "127.0.0.1"))

env_port_or : Option Str → ℤ → ℤ
env_port_or none p = p
env_port_or (some []) p = p
env_port_or (some (c ∷ s)) p = let ep = atoi (c ∷ s) in if is_port ep then ep else p

unfoldable pub normalize_port : (env_port : Option Str) (raw_port : ℤ) → ℤ
unfolding env_port_or
normalize_port env_port raw_port =
    let p = if is_port raw_port then raw_port else env_port_or env_port raw_port in
    if is_port p then p else pos 1502

unfoldable pub normalize_host_port :
    (size : ℕ) (env_host env_port raw_host : Option Str) (raw_port : ℤ) → Str × ℤ
normalize_host_port size env_host env_port raw_host raw_port =
    (normalize_host size env_host raw_host, normalize_port env_port raw_port)
