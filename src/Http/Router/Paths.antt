-- ===== src/Http/Router/Paths.antt =====
-- Which requests the paths of the interface lead to.
use mapper_framework_c.Prelude.{◌≡◌, refl, List, [], ◌∷◌, ◌++◌}
use mapper_framework_c.Prelude.CString.{Str, codes, str_eq, starts_with}
use mapper_framework_c.Http.Router.{
  api_device, api_device_method, api_meta_model, device_read, device_write, get_device_method,
  meta_get_model, drop_prefix, device_widths, write_widths, name_widths, route_meta, route_method,
  route_device, route,
}
use mapper_framework_c.Http.Router.Scan.{
  IsSegment, path, scan_segments-path, scan_segments-fewer, scan_segments-skipped,
}

abbrev pub get_method : Str
get_method = codes "GET"

-- The path of a device's property is routed to the read of just that property.
pub route-device_read :
    (namespace name property : Str)
    → IsSegment 63 namespace
    → IsSegment 63 name
    → IsSegment 63 property
    → route get_method (api_device ++ path (namespace ∷ name ∷ property ∷ []))
      ≡ device_read namespace name property
unfolding route route_device str_eq starts_with drop_prefix
route-device_read namespace name property h k l =
    rw (scan_segments-path device_widths (namespace ∷ name ∷ property ∷ []) (h, (k, (l, tt))))

-- The path of a write, which begins like that of a read, is routed to that write. Its parts are not
-- empty, have no slash and at most 63 bytes, the value at most 127.
pub route-device_write :
    (namespace name method property data_text : Str)
    → IsSegment 63 namespace
    → IsSegment 63 name
    → IsSegment 63 method
    → IsSegment 63 property
    → IsSegment 127 data_text
    → route get_method
        (api_device_method ++ path (namespace ∷ name ∷ method ∷ property ∷ data_text ∷ []))
      ≡ device_write namespace name method property data_text
unfolding route route_device route_method str_eq starts_with drop_prefix
route-device_write namespace name method property data_text a b c d e = rw (
  scan_segments-skipped 63 (63 ∷ 63 ∷ []) b'm' (codes "ethod" ++ path segments) refl,
  scan_segments-path write_widths segments (a, (b, (c, (d, (e, tt))))),
)
  where
    segments : List Str
    segments = namespace ∷ name ∷ method ∷ property ∷ data_text ∷ []

-- The path of the list of a device's methods, a beginning of the path of a write, is routed there.
pub route-get_device_method :
    (namespace name : Str)
    → IsSegment 63 namespace
    → IsSegment 63 name
    → route get_method (api_device_method ++ path (namespace ∷ name ∷ []))
      ≡ get_device_method namespace name
unfolding route route_device route_method str_eq starts_with drop_prefix
route-get_device_method namespace name a b = rw (
  scan_segments-skipped 63 (63 ∷ 63 ∷ []) b'm' (codes "ethod" ++ path (namespace ∷ name ∷ [])) refl,
  scan_segments-fewer name_widths (63 ∷ 63 ∷ 127 ∷ []) (namespace ∷ name ∷ []) (a, (b, tt)),
  scan_segments-path name_widths (namespace ∷ name ∷ []) (a, (b, tt)),
)

-- The path of the model of a device is routed to the read of that model.
pub route-meta_get_model :
    (namespace name : Str)
    → IsSegment 63 namespace
    → IsSegment 63 name
    → route get_method (api_meta_model ++ path (namespace ∷ name ∷ []))
      ≡ meta_get_model namespace name
unfolding route route_device route_method route_meta str_eq starts_with drop_prefix
route-meta_get_model namespace name a b =
    rw (scan_segments-path name_widths (namespace ∷ name ∷ []) (a, (b, tt)))
