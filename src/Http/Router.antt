-- ===== src/Http/Router.antt =====
-- `router_callback` of httpserver/httpserver.c, lines 258 to 310: which handler a request goes to.
pub mod Scan
pub mod Paths
use mapper_framework_c.Prelude.{
  ℕ, zero, suc, Bool, true, false, not, ◌==◌, if◌then◌else◌, Option, none, some, List, [], ◌∷◌,
  ◌++◌,
}
use mapper_framework_c.Prelude.CString.{Str, codes, str_eq, starts_with}

abbrev pub api_ping : Str
api_ping = codes "/api/v1/ping"

abbrev pub api_device : Str
api_device = codes "/api/v1/device"

abbrev pub api_device_method : Str
api_device_method = codes "/api/v1/devicemethod"

abbrev pub api_meta_model : Str
api_meta_model = codes "/api/v1/meta/model"

abbrev pub api_database : Str
api_database = codes "/api/v1/database"

pub data Request : Type 0 where
  method_not_allowed ping database_get_data not_found : Request
  device_read : (namespace name property : Str) → Request
  device_write : (namespace name method property data_text : Str) → Request
  get_device_method : (namespace name : Str) → Request
  meta_get_model : (namespace name : Str) → Request

-- The conversion `%w[^/]` of `sscanf`: what it stores, and what is left.
unfoldable pub segment : (width : ℕ) → Str → Str × Str
segment zero s = ([], s)
segment (suc w) [] = ([], [])
segment (suc w) (c ∷ s) =
    let rest = segment w s in if c == b'/' then ([], c ∷ s) else (c ∷ rest.0, rest.1)

-- A conversion that matched nothing fails, and so do those behind it.
abbrev pub store : Str → List Str → List Str
store [] ss = []
store (d ∷ t) ss = (d ∷ t) ∷ ss

-- The conversions `/%w[^/]`, one for each width: what they store, up to the first that fails.
unfoldable pub scan_segments : List ℕ → Str → List Str
scan_segments [] s = []
scan_segments (w ∷ ws) [] = []
scan_segments (w ∷ ws) (c ∷ s) =
    let found = segment w s in
    let later = scan_segments ws found.1 in if c == b'/' then store found.0 later else []

-- The text behind a prefix.
unfoldable pub drop_prefix : Str → Str → Str
drop_prefix [] s = s
drop_prefix (c ∷ p) [] = []
drop_prefix (c ∷ p) (d ∷ s) = drop_prefix p s

abbrev pub device_widths : List ℕ
device_widths = 63 ∷ 63 ∷ 63 ∷ []

abbrev pub write_widths : List ℕ
write_widths = 63 ∷ 63 ∷ 63 ∷ 63 ∷ 127 ∷ []

abbrev pub name_widths : List ℕ
name_widths = 63 ∷ 63 ∷ []

-- A handler is called where `sscanf` stored all segments; otherwise the next test is made.
abbrev on_three : (Str → Str → Str → Request) → Request → List Str → Request
on_three handler next (a ∷ b ∷ c ∷ []) = handler a b c
on_three handler next _ = next

abbrev on_five : (Str → Str → Str → Str → Str → Request) → Request → List Str → Request
on_five handler next (a ∷ b ∷ c ∷ d ∷ e ∷ []) = handler a b c d e
on_five handler next _ = next

abbrev on_two : (Str → Str → Request) → Request → List Str → Request
on_two handler next (a ∷ b ∷ []) = handler a b
on_two handler next _ = next

abbrev under : Str → Str → (Str → Request) → Request → Request
under prefix url scan next = if starts_with url prefix then scan (drop_prefix prefix url) else next

unfoldable pub route_database : Str → Request
route_database url =
    under api_database url
      (λ rest. on_two (λ a b. database_get_data) not_found (scan_segments name_widths rest))
      not_found

unfoldable pub route_meta : Str → Request
route_meta url =
    under api_meta_model url
      (λ rest. on_two meta_get_model (route_database url) (scan_segments name_widths rest))
      (route_database url)

unfoldable pub route_method : Str → Request
route_method url =
    under api_device_method url
      (λ rest.
        on_five device_write
          (on_two get_device_method (route_meta url) (scan_segments name_widths rest))
          (scan_segments write_widths rest))
      (route_meta url)

unfoldable pub route_device : Str → Request
route_device url =
    under api_device url
      (λ rest. on_three device_read (route_method url) (scan_segments device_widths rest))
      (route_method url)

unfoldable pub route : (method url : Str) → Request
route method url =
    if not (str_eq method (codes "GET"))
    then method_not_allowed
    else if str_eq url api_ping
    then ping
    else route_device url
