-- ===== src/Tests/Texts.antt =====
-- Witnesses of what holds for the texts: hosts, JSON keys, commands and database names.
use mapper_framework_c.Prelude.{◌≡◌, refl, true, none, some, ◌∷◌, ◌++◌, all, arith}
use mapper_framework_c.Prelude.CString.{Str, codes}
use mapper_framework_c.Prelude.Int.{negsuc}
use mapper_framework_c.Device.Host.{is_host_char, is_port, normalize_host_port}
use mapper_framework_c.Device.Host.Bounds.{IsHost, normalize_host_port-bounds}
use mapper_framework_c.Device.JsonScan.{strcasestr}
use mapper_framework_c.Recorder.{is_id_char}

normalize_host_port-bounds_example :
    IsHost 128
      (normalize_host_port 128 none (some (codes "70000")) (some (codes " ;rm ")) (negsuc 0)).0
    × (is_port
          (normalize_host_port 128 none (some (codes "70000")) (some (codes " ;rm ")) (negsuc 0)).1
        ≡ true)
normalize_host_port-bounds_example =
    normalize_host_port-bounds 128 none (some (codes "70000")) (some (codes " ;rm ")) (negsuc 0)
      (omega arith)

clean_address : IsHost 128 (codes "10.0.0.2")
unfolding is_host_char
clean_address = record { filled = cc; fits = omega arith; clean = refl }

-- The key "ip" is found inside "description".
abbrev described : Str
described = codes "{\"description\":\"pump\",\"ip\":\"10.0.0.2\"}"

inside_description :
    strcasestr described (codes "ip")
    ≡ some (
        codes "iption\""
        ++ (b':' ∷ b'"' ∷ (codes "pump" ++ (b'"' ∷ codes ",\"ip\":\"10.0.0.2\"}"))))
unfolding strcasestr
inside_description = refl

clean_fallback : all is_id_char (codes "device") ≡ true
unfolding is_id_char
clean_fallback = refl
