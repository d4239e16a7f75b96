-- ===== src/Device/Rebuild/Links.antt =====
-- After a rebuild every twin points at a property that is there.
use mathlib.Core.Path.{subst₂}
use mapper_framework_c.Prelude.{
  ℕ, ◌+◌, ◌≡◌, refl, ap, sym, ◌∙◌, true, false, Bool-cases, inl, inr, is_some, Option, none, some,
  List, [], ◌∷◌, ◌++◌, any, arith, length, get_elem?,
}
use mapper_framework_c.Common.ConfigMapType.{
  DeviceProperty, Twin, DeviceInstance, PropertyRef, deref,
}
use mapper_framework_c.Device.Rebuild.{
  twins_from, is_empty, add_methods, is_unbound, needs_rebuild, device_runtime_rebuild,
}

-- What the twin's pointer leads to.
abbrev pub target : List DeviceProperty → Twin → Option DeviceProperty
target ps t = follow t.property
  where
    follow : Option PropertyRef → Option DeviceProperty
    follow none = none
    follow (some r) = deref ps r

-- No pointer of a twin leads outside the properties; it may be null.
abbrev pub RefsValid : List DeviceProperty → List Twin → Type 0
RefsValid ps [] = Unit
RefsValid ps (t ∷ ts) = (is_some t.property ≡ true → is_some (target ps t) ≡ true) × RefsValid ps ts

-- Every twin has a property.
abbrev pub Linked : List DeviceProperty → List Twin → Type 0
Linked ps [] = Unit
Linked ps (t ∷ ts) = (is_some (target ps t) ≡ true) × Linked ps ts

get_elem?-middle :
    (front : List DeviceProperty) (p : DeviceProperty) (ps : List DeviceProperty)
    → get_elem? (front ++ p ∷ ps) (length front) ≡ some p
get_elem?-middle [] p ps = refl
get_elem?-middle (f ∷ front) p ps = get_elem?-middle front p ps

snoc_append :
    (front : List DeviceProperty) (p : DeviceProperty) (ps : List DeviceProperty)
    → (front ++ p ∷ []) ++ ps ≡ front ++ p ∷ ps
snoc_append [] p ps = refl
snoc_append (f ∷ front) p ps = ap (λ l. f ∷ l) (snoc_append front p ps)

length-snoc :
    (front : List DeviceProperty) (p : DeviceProperty) → length (front ++ p ∷ []) ≡ length front + 1
length-snoc [] p = refl
length-snoc (f ∷ front) p = omega (arith, length-snoc front p)

pub twins_from-Linked :
    (front ps : List DeviceProperty) → Linked (front ++ ps) (twins_from (length front) ps)
unfolding twins_from
twins_from-Linked front [] = tt
twins_from-Linked front (p ∷ ps) = (
  ap is_some (get_elem?-middle front p ps),
  subst₂ (λ l n. Linked l (twins_from n ps)) (snoc_append front p ps) (length-snoc front p)
      (twins_from-Linked (front ++ p ∷ []) ps),
)

Linked-of_bound :
    (ps : List DeviceProperty) (ts : List Twin)
    → RefsValid ps ts
    → any is_unbound ts ≡ false
    → Linked ps ts
Linked-of_bound ps [] v b = tt
Linked-of_bound ps (t ∷ ts) v b = (v.0 (ground arith), Linked-of_bound ps ts v.1 (ground arith))

pub bound_of_Linked :
    (ps : List DeviceProperty) (ts : List Twin) → Linked ps ts → any is_unbound ts ≡ false
bound_of_Linked ps [] l = refl
bound_of_Linked ps (t ∷ ts) l = ground (arith, bound_of_Linked ps ts l.1)

pub add_methods-same :
    (inst : DeviceInstance)
    → ((add_methods inst).twins ≡ inst.twins) × ((add_methods inst).properties ≡ inst.properties)
add_methods-same inst = ground arith

pub RefsValid-of_Linked :
    (ps : List DeviceProperty) (ts : List Twin) → Linked ps ts → RefsValid ps ts
RefsValid-of_Linked ps [] l = tt
RefsValid-of_Linked ps (t ∷ ts) l = (λ _. l.0, RefsValid-of_Linked ps ts l.1)

-- A rebuild leaves the properties alone. If no pointer of a twin leads outside them, then
-- afterwards every twin has a property that is there.
pub device_runtime_rebuild-Linked :
    (inst : DeviceInstance)
    → RefsValid inst.properties inst.twins
    → ((device_runtime_rebuild inst).properties ≡ inst.properties)
      × Linked inst.properties (device_runtime_rebuild inst).twins
unfolding device_runtime_rebuild
device_runtime_rebuild-Linked inst v = elim (Bool-cases (needs_rebuild inst)) [
  | inl y ↦
      let same = add_methods-same (record inst { twins = twins_from 0 inst.properties }) in
      (rw y same.1, rw (y, same.0) (twins_from-Linked [] inst.properties))
  | inr n ↦
      let same = add_methods-same inst in
      (rw n same.1, rw (n, same.0) (Linked-of_bound inst.properties inst.twins v (ground arith)))
]

rebuild-kept :
    (inst : DeviceInstance)
    → needs_rebuild inst ≡ false
    → device_runtime_rebuild inst ≡ add_methods inst
unfolding device_runtime_rebuild
rebuild-kept inst h = rw h

add_methods_idem : (inst : DeviceInstance) → add_methods (add_methods inst) ≡ add_methods inst
add_methods_idem inst = ground arith

needs_rebuild-add_methods :
    (inst : DeviceInstance) → needs_rebuild (add_methods inst) ≡ needs_rebuild inst
needs_rebuild-add_methods inst = ground arith

is_empty-twins_from : (i : ℕ) (ps : List DeviceProperty) → is_empty (twins_from i ps) ≡ is_empty ps
unfolding twins_from
is_empty-twins_from i [] = refl
is_empty-twins_from i (p ∷ ps) = refl

bound-twins_from : (i : ℕ) (ps : List DeviceProperty) → any is_unbound (twins_from i ps) ≡ false
unfolding twins_from
bound-twins_from i [] = refl
bound-twins_from i (p ∷ ps) = bound-twins_from (i + 1) ps

rebuilt-no_need :
    (inst : DeviceInstance)
    → needs_rebuild (record inst { twins = twins_from 0 inst.properties }) ≡ false
rebuilt-no_need inst =
    rw (is_empty-twins_from 0 inst.properties, bound-twins_from 0 inst.properties) (ground arith)

-- A second rebuild changes nothing.
pub device_runtime_rebuild_idem :
    (inst : DeviceInstance)
    → device_runtime_rebuild (device_runtime_rebuild inst) ≡ device_runtime_rebuild inst
device_runtime_rebuild_idem inst = elim (Bool-cases (needs_rebuild inst)) [
  | inl y ↦
      twice (record inst { twins = twins_from 0 inst.properties }) (rebuilt-no_need inst)
        (unfold device_runtime_rebuild in rw y)
  | inr n ↦ twice inst n (rebuild-kept inst n)
]
  where
    twice :
        (k : DeviceInstance)
        → needs_rebuild k ≡ false
        → device_runtime_rebuild inst ≡ add_methods k
        → device_runtime_rebuild (device_runtime_rebuild inst) ≡ device_runtime_rebuild inst
    twice k n e =
        ap device_runtime_rebuild e
        ∙ rebuild-kept (add_methods k) (needs_rebuild-add_methods k ∙ n)
        ∙ add_methods_idem k
        ∙ sym e
