-- ===== src/Common/Const.antt =====
-- The constants of common/const.h that the modelled code uses, and the return codes.
use mapper_framework_c.Prelude.{Bool, false, ◌==◌}
use mapper_framework_c.Prelude.Int.{ℤ, pos, negsuc}
use mapper_framework_c.Prelude.CString.{Str, codes}

abbrev pub device_status_ok : Str
device_status_ok = codes "ok"

abbrev pub device_status_offline : Str
device_status_offline = codes "offline"

abbrev pub device_status_unknown : Str
device_status_unknown = codes "unknown"

-- `return 0;` and `return -1;`
abbrev pub success : ℤ
success = pos 0

abbrev pub failure : ℤ
failure = negsuc 0

-- `ret == 0`
abbrev pub is_zero : ℤ → Bool
is_zero (pos n) = n == 0
is_zero (negsuc n) = false
