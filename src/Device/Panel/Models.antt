-- ===== src/Device/Panel/Models.antt =====
-- The identifiers of models: "namespace/name" in the panel, "namespace.name" in its callers.
use mapper_framework_c.Prelude.{
  ℕ, zero, suc, ◌<◌, ◌≡◌, refl, true, false, inl, inr, Option, none, some, Option-cases, List, [],
  ◌∷◌, ◌++◌, arith, take, length, or_default,
}
use mapper_framework_c.Prelude.CString.{Str, codes, str_eq_iff}
use mapper_framework_c.Common.ConfigMapType.{DeviceModel}
use mapper_framework_c.Parse.ResourceId.{
  get_resource_id, has_slash, printed, has_slash-get_resource_id,
}
use mapper_framework_c.Device.Types.{Device, DeviceManager}
use mapper_framework_c.Device.Panel.{device_model_id, scan_models, dev_panel_get_model}

has_slash-take : (n : ℕ) (s t : Str) → length s < n → has_slash (take n (s ++ b'/' ∷ t)) ≡ true
has_slash-take zero s t h = absurd (omega arith)
has_slash-take (suc n) [] t h = refl
has_slash-take (suc n) (c ∷ s) t h = ground (arith, has_slash-take n s t)

-- The namespace of every model leaves room for the slash in the buffer of 256 bytes.
abbrev pub ShortNamespaces : List Device → Type 0
ShortNamespaces [] = Unit
ShortNamespaces (d ∷ ds) =
    (length (or_default d.model.namespace (codes "default")) < 255) × ShortNamespaces ds

has_slash-device_model_id :
    (model : DeviceModel) (name : Str)
    → length (or_default model.namespace (codes "default")) < 255
    → has_slash (device_model_id model name) ≡ true
unfolding device_model_id
has_slash-device_model_id model name h = has_slash-take 255 _ name h

scan_models-none :
    (id : Str) (ds : List Device)
    → ShortNamespaces ds
    → has_slash id ≡ false
    → scan_models id ds ≡ none
unfolding scan_models
scan_models-none id [] s h = refl
scan_models-none id (d ∷ ds) s h = elim (Option-cases d.model.name) [
  | inl e ↦ rw (e, scan_models) (scan_models-none id ds s.1 h)
  | inr (name, e) ↦ ground (
    arith,
    has_slash-device_model_id d.model name s.0,
    str_eq_iff (device_model_id d.model name) id,
    scan_models-none id ds s.1 h,
  )
]

-- No model is ever found under an identifier that `get_resource_id` makes from a namespace and a
-- name without slashes, whatever models the devices have, if their namespaces are shorter than
-- 255 bytes.
pub dev_panel_get_model-get_resource_id :
    (m : DeviceManager) (ns name : Option Str) (outlen : ℕ)
    → ShortNamespaces m.devices
    → has_slash (printed ns) ≡ false
    → has_slash (printed name) ≡ false
    → dev_panel_get_model m (some (get_resource_id ns name outlen)) ≡ none
unfolding dev_panel_get_model
dev_panel_get_model-get_resource_id m ns name outlen s h k =
    scan_models-none (get_resource_id ns name outlen) m.devices s
      (has_slash-get_resource_id ns name outlen h k)
