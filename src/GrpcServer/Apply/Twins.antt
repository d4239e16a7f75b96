-- ===== src/GrpcServer/Apply/Twins.antt =====
-- Which twins an update changes.
use mapper_framework_c.Prelude.{
  ◌≡◌, refl, ap, ◌∙◌, ℕ, zero, suc, ◌+◌, ◌<◌, true, false, lt→ltb, Bool-cases, inl, inr, Option,
  none, some, Option-cases, List, [], ◌∷◌, ◌++◌, length, get_elem?, set, any, map-set, map,
  if_holds, arith,
}
use mapper_framework_c.Prelude.Int.{ℤ}
use mapper_framework_c.Prelude.CString.{Str}
use mapper_framework_c.Common.Const.{is_zero}
use mapper_framework_c.Common.ConfigMapType.{Twin, DeviceInstance}
use mapper_framework_c.Device.World.{World}
use mapper_framework_c.Device.Twins.{has_name}
use mapper_framework_c.Device.DealTwin.{Deal}
use mapper_framework_c.Device.DealTwin.Settles.{Outcome, skipped, refused, written, outcome_of}
use mapper_framework_c.GrpcServer.Apply.{
  CloudProperty, wish, device_deal_twin_with_timeout, apply_directly, dealt, apply_at, apply_value,
  match_name, match_index, by_index, Applied, desire, apply_property, apply_properties,
}

-- The twin keeps its name and what is desired.
abbrev SameWish : Twin → Twin → Type 0
SameWish t t' =
    (t'.property_name ≡ t.property_name) × (t'.observed_desired.value ≡ t.observed_desired.value)

outcome-SameWish :
    {w : World} {inst : DeviceInstance} {t : Twin} {d : Deal}
    → Outcome w inst t d
    → SameWish t d.twin
outcome-SameWish (skipped e n) = rw e (refl, refl)
outcome-SameWish (refused r q z e) = rw e (refl, refl)
outcome-SameWish (written r q p z e) = rw e (refl, refl)

timed-SameWish :
    (w : World) (took : ℤ) (inst : DeviceInstance) (t : Twin)
    → SameWish t (device_deal_twin_with_timeout w took inst t).twin
unfolding device_deal_twin_with_timeout
timed-SameWish w took inst t = outcome-SameWish (outcome_of w inst t)

dealt-twins :
    (w : World) (name value : Str) (ts : List Twin) (k : ℕ) (deal : Deal)
    → (dealt w name value ts k deal).twins ≡ set ts k deal.twin
unfolding dealt apply_directly
dealt-twins w name value ts k deal =
    if_holds (λ (a : Applied). a.twins ≡ set ts k deal.twin) (is_zero deal.code) (λ y. refl)
      (λ n. refl)

-- What an update does with the twins for one value: the twin at a position takes the value and
-- keeps its name, and no other twin changes.
pub record Takes (ts after : List Twin) (k : ℕ) (t : Twin) (value : Str) : Type 0 where
  pub twin_after : Twin
  pub changed : after ≡ set ts k twin_after
  pub named : twin_after.property_name ≡ t.property_name
  pub desired : twin_after.observed_desired.value ≡ some value

-- The value of a property goes to the twin that `match_index` gives, and no other twin changes,
-- whatever the write itself comes to.
pub apply_value-Takes :
    (w : World) (took : ℤ) (inst : DeviceInstance) (i : ℕ) (name value : Str) (ts : List Twin)
    {k : ℕ} {t : Twin}
    → match_index name i ts ≡ some k
    → get_elem? ts k ≡ some t
    → Takes ts (apply_value w took inst i name value ts).twins k t value
unfolding apply_value apply_at
apply_value-Takes w took inst i name value ts {k} {t} m g =
    let deal = device_deal_twin_with_timeout w took inst (desire value t) in
    let same = timed-SameWish w took inst (desire value t) in
    rw (m, apply_at, g, dealt-twins w name value ts k deal)
      (record { twin_after = deal.twin; changed = refl; named = same.0; desired = same.1 })

abbrev Unnamed : Str → List Twin → Type 0
Unnamed name ts = any (has_name name) ts ≡ false

match_name-none :
    (name : Str) (j : ℕ) (ts : List Twin) → Unnamed name ts → match_name name j ts ≡ none
unfolding match_name
match_name-none name j [] u = refl
match_name-none name j (t ∷ ts) u = ground (arith, match_name-none name (suc j) ts)

match_name-append :
    (name : Str) (j : ℕ) (before after : List Twin) (t : Twin)
    → Unnamed name before
    → has_name name t ≡ true
    → match_name name j (before ++ t ∷ after) ≡ some (j + length before)
unfolding match_name
match_name-append name j [] after t u y = rw y (ap some (omega arith))
match_name-append name j (x ∷ before) after t u y = elim (Bool-cases (has_name name x)) [
  | inl e ↦ absurd (cc (rw e at u))
  | inr e ↦
      rw e (match_name-append name (suc j) before after t (rw e at u) y ∙ ap some (omega arith))
]

get_elem?-append :
    (before after : List Twin) (t : Twin) → get_elem? (before ++ t ∷ after) (length before) ≡ some t
get_elem?-append [] after t = refl
get_elem?-append (x ∷ before) after t = get_elem?-append before after t

-- Where a twin has the name of the property, the value goes to the first such twin, and no other
-- twin changes, whatever the write itself comes to.
pub apply_value-named :
    (w : World) (took : ℤ) (inst : DeviceInstance) (i : ℕ) (name value : Str)
    (before after : List Twin) (t : Twin)
    → Unnamed name before
    → has_name name t ≡ true
    → Takes
        (before ++ t ∷ after)
        (apply_value w took inst i name value (before ++ t ∷ after)).twins
        (length before)
        t
        value
unfolding match_index by_index
apply_value-named w took inst i name value before after t u y =
    apply_value-Takes w took inst i name value (before ++ t ∷ after)
      (rw (match_name-append name 0 before after t u y) (ap some (omega arith)))
      (get_elem?-append before after t)

get_elem?-Unnamed :
    (name : Str) (ts : List Twin) (i : ℕ) {t : Twin}
    → Unnamed name ts
    → get_elem? ts i ≡ some t
    → has_name name t ≡ false
get_elem?-Unnamed name [] i u g = cc
get_elem?-Unnamed name (x ∷ ts) zero u g = ground arith
get_elem?-Unnamed name (x ∷ ts) (suc i) u g = get_elem?-Unnamed name ts i (ground arith) g

get_elem?-lt : (ts : List Twin) (i : ℕ) {t : Twin} → get_elem? ts i ≡ some t → i < length ts
get_elem?-lt [] i g = cc
get_elem?-lt (x ∷ ts) zero g = omega arith
get_elem?-lt (x ∷ ts) (suc i) g = omega (arith, get_elem?-lt ts i g)

-- Where no twin has the name of the property, its value goes to the twin that stands at the
-- property's own position in the message, which has another name or none.
pub apply_value-misplaced :
    (w : World) (took : ℤ) (inst : DeviceInstance) (i : ℕ) (name value : Str) (ts : List Twin)
    {t : Twin}
    → Unnamed name ts
    → get_elem? ts i ≡ some t
    → Takes ts (apply_value w took inst i name value ts).twins i t value × (has_name name t ≡ false)
unfolding match_index by_index
apply_value-misplaced w took inst i name value ts {t} u g = (
  apply_value-Takes w took inst i name value ts
      (rw (match_name-none name 0 ts u, lt→ltb i (length ts) (get_elem?-lt ts i g)) refl) g,
  get_elem?-Unnamed name ts i u g,
)

abbrev names_of : List Twin → List (Option Str)
names_of ts = map (λ (x : Twin). x.property_name) ts

apply_value-names :
    (w : World) (took : ℤ) (inst : DeviceInstance) (i : ℕ) (name value : Str) (ts : List Twin)
    → names_of (apply_value w took inst i name value ts).twins ≡ names_of ts
unfolding apply_value apply_at apply_directly
apply_value-names w took inst i name value ts = elim (Option-cases (match_index name i ts)) [
  | inl n ↦ rw (n, apply_value, apply_at) refl
  | inr (k, m) ↦ elim (Option-cases (get_elem? ts k)) [
    | inl n ↦ rw (m, apply_value, apply_at, n) refl
    | inr (t, g) ↦
        let taken = apply_value-Takes w took inst i name value ts m g in
        ap names_of taken.changed
        ∙ map-set (λ (x : Twin). x.property_name) ts k taken.twin_after g taken.named
  ]
]

apply_property-names :
    (w : World) (took : ℤ) (inst : DeviceInstance) (i : ℕ) (p : CloudProperty) (ts : List Twin)
    → names_of (apply_property w took inst i p ts).twins ≡ names_of ts
unfolding apply_property
apply_property-names w took inst i p ts = elim (Option-cases (wish p)) [
  | inl n ↦ rw (n, apply_property) refl
  | inr (v, y) ↦ rw (y, apply_property) (apply_value-names w took inst i p.name v ts)
]

-- An update keeps the names of the twins, their number and their order.
pub apply_properties-names :
    (w : World) (took : ℕ → ℤ) (inst : DeviceInstance) (ps : List CloudProperty) (i : ℕ)
    (ts : List Twin)
    → names_of (apply_properties w took inst ps i ts).twins ≡ names_of ts
unfolding apply_properties
apply_properties-names w took inst [] i ts = refl
apply_properties-names w took inst (p ∷ ps) i ts =
    apply_properties-names w took inst ps (suc i) (apply_property w (took i) inst i p ts).twins
    ∙ apply_property-names w (took i) inst i p ts
