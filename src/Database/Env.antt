-- ===== src/Database/Env.antt =====
-- The environment variables, which the clients read and one of them writes.
use mapper_framework_c.Prelude.{Option, none, some, [], ◌∷◌, if◌then◌else◌}
use mapper_framework_c.Prelude.CString.{Str, str_eq}

abbrev pub Env : Type 0
Env = Str → Option Str

-- `setenv(name, value, 1)`
abbrev pub setenv : Env → Str → Str → Env
setenv env name value = λ n. if str_eq n name then some value else env n

-- `v && *v ? v : NULL`
abbrev pub non_empty : Option Str → Option Str
non_empty none = none
non_empty (some []) = none
non_empty (some (c ∷ s)) = some (c ∷ s)
