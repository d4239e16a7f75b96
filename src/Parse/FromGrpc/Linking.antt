-- ===== src/Parse/FromGrpc/Linking.antt =====
-- Every twin is linked to a property.
use mapper_framework_c.Prelude.{
  ℕ, suc, ◌≡◌, refl, ap, ◌∙◌, Bool, true, Bool-cases, inl, inr, if◌then◌else◌, Option, none, some,
  Option-cases, is_some, List, [], ◌∷◌, map, all, get_elem?, arith,
}
use mapper_framework_c.Prelude.CString.{Str, str_eq, str_eq_refl}
use mapper_framework_c.Common.Cjson.{Cjson}
use mapper_framework_c.Common.ConfigMapType.{
  ModelProperty, DeviceProperty, Twin, DeviceInstance, DeviceModel, embedded,
}
use mapper_framework_c.Device.Rebuild.Links.{Linked}
use mapper_framework_c.Parse.FromGrpc.{
  PropertyMessage, SpecMessage, DeviceMessage, bump, at_name, model_index, property_index,
  linked_property, linked_twin, cons_both, link_properties, link_twins, property_from_grpc,
  twin_from_grpc,
}
use mapper_framework_c.Parse.FromGrpc.Instance.{
  link_instance, built_instance, link_with, get_device_from_grpc,
}

-- The properties of a model have names.
abbrev pub all_named : List ModelProperty → Bool
all_named = all (λ (m : ModelProperty). is_some m.name)

model_index-some :
    (name : Str) (ms : List ModelProperty)
    → all_named ms ≡ true
    → is_some (model_index name ms) ≡ true
unfolding model_index
model_index-some name [] h = refl
model_index-some name (m ∷ ms) h = elim (Option-cases m.name) [
  | inl e ↦ absurd (ground arith)
  | inr (n, e) ↦
      let later = model_index-some name ms (ground arith) in
      ap (λ (o : Option Str). is_some (at_name name o (model_index name ms))) e
      ∙ is_some-at_name name n (model_index name ms) later
]
  where
    is_some-at_name :
        (name n : Str) (rest : Option (Option ℕ))
        → is_some rest ≡ true
        → is_some (at_name name (some n) rest) ≡ true
    is_some-at_name name n none l = absurd (cc)
    is_some-at_name name n (some none) l = ground arith
    is_some-at_name name n (some (some i)) l = ground arith

-- The properties have the names of the messages.
abbrev NamesOf : List DeviceProperty → List PropertyMessage → Type 0
NamesOf [] [] = Unit
NamesOf (p ∷ ps) (m ∷ ms) = (p.property_name ≡ some m.name) × NamesOf ps ms
NamesOf _ _ = ⊥

linked :
    (models : List ModelProperty) (built : DeviceInstance) {ps : List DeviceProperty}
    {ts : List Twin}
    → link_properties models built.properties ≡ some ps
    → link_twins ps built.twins ≡ some ts
    → link_instance models built ≡ some (record built { properties = ps; twins = ts })
unfolding link_instance
linked models built f g = rw (f, link_instance, g)

NamesOf-property_from_grpc :
    (j : Cjson) (model protocol : Option Str) (ms : List PropertyMessage)
    → NamesOf (map (property_from_grpc j model protocol) ms) ms
unfolding property_from_grpc
NamesOf-property_from_grpc j model protocol [] = tt
NamesOf-property_from_grpc j model protocol (m ∷ ms) =
    (refl, NamesOf-property_from_grpc j model protocol ms)

linked_property-some :
    (p : DeviceProperty) (o : Option (Option ℕ))
    → is_some o ≡ true
    → (q : DeviceProperty) × (linked_property p o ≡ some q) × (q.property_name ≡ p.property_name)
linked_property-some p none h = absurd (cc)
linked_property-some p (some found) h = (record p { p_property = found }, refl, refl)

cons_both-some {ℓ} :
    {A : Type ℓ} {o : Option A} {r : Option (List A)} {x : A} {xs : List A}
    → o ≡ some x
    → r ≡ some xs
    → cons_both o r ≡ some (x ∷ xs)
cons_both-some e h = rw (e, h)

link_properties-NamesOf :
    (models : List ModelProperty) (ps : List DeviceProperty) (ms : List PropertyMessage)
    → all_named models ≡ true
    → NamesOf ps ms
    → (qs : List DeviceProperty) × (link_properties models ps ≡ some qs) × NamesOf qs ms
unfolding link_properties
link_properties-NamesOf models [] [] a n = ([], refl, tt)
link_properties-NamesOf models [] (m ∷ ms) a n = absurd n
link_properties-NamesOf models (p ∷ ps) [] a n = absurd n
link_properties-NamesOf models (p ∷ ps) (m ∷ ms) a n =
    let (qs, e, k) = link_properties-NamesOf models ps ms a n.1 in
    let (q, f, same) =
      linked_property-some p (model_index _ models) (model_index-some _ models a) in
    (q ∷ qs, cons_both-some f e, (same ∙ n.0, k))

-- The name leads to a place that is there.
Hit : List DeviceProperty → Str → Type 0
Hit ps name = (i : ℕ) × (property_index name ps ≡ some (some i)) × (is_some (get_elem? ps i) ≡ true)

Hit-own :
    (name : Str) (p : DeviceProperty) (ps : List DeviceProperty)
    → p.property_name ≡ some name
    → Hit (p ∷ ps) name
unfolding Hit property_index
Hit-own name p ps e = (
  0,
  ap (λ (o : Option Str). at_name name o (property_index name ps)) e
      ∙ ap (λ b. if b then some (some 0) else bump (property_index name ps)) (str_eq_refl name),
  refl,
)

Hit-behind :
    (name : Str) (p : DeviceProperty) (ps : List DeviceProperty) {n : Str}
    → p.property_name ≡ some n
    → Hit ps name
    → Hit (p ∷ ps) name
unfolding Hit property_index
Hit-behind name p ps {n} e (i, f, there) =
    let first = ap (λ (o : Option Str). at_name name o (property_index name ps)) e in
    elim (Bool-cases (str_eq name n)) [
      | inl y ↦ (0, first ∙ (rw y), refl)
      | inr z ↦ (suc i, first ∙ (rw (z, f)), there)
    ]

abbrev AllHit : List DeviceProperty → List PropertyMessage → Type 0
AllHit ps [] = Unit
AllHit ps (m ∷ ms) = Hit ps m.name × AllHit ps ms

AllHit-cons :
    (p : DeviceProperty) (ps : List DeviceProperty) (ms : List PropertyMessage) {n : Str}
    → p.property_name ≡ some n
    → AllHit ps ms
    → AllHit (p ∷ ps) ms
AllHit-cons p ps [] e h = tt
AllHit-cons p ps (m ∷ ms) e h = (Hit-behind m.name p ps e h.0, AllHit-cons p ps ms e h.1)

NamesOf-AllHit :
    (ps : List DeviceProperty) (ms : List PropertyMessage) → NamesOf ps ms → AllHit ps ms
NamesOf-AllHit [] [] n = tt
NamesOf-AllHit [] (m ∷ ms) n = absurd n
NamesOf-AllHit (p ∷ ps) [] n = absurd n
NamesOf-AllHit (p ∷ ps) (m ∷ ms) n =
    (Hit-own m.name p ps n.0, AllHit-cons p ps ms n.0 (NamesOf-AllHit ps ms n.1))

link_twins-Linked :
    (ps : List DeviceProperty) (ms : List PropertyMessage)
    → AllHit ps ms
    → (ts : List Twin) × (link_twins ps (map twin_from_grpc ms) ≡ some ts) × Linked ps ts
unfolding link_twins Hit twin_from_grpc
link_twins-Linked ps [] h = ([], refl, tt)
link_twins-Linked ps (m ∷ ms) h =
    let (ts, e, k) = link_twins-Linked ps ms h.1 in
    let (i, f, there) = h.0 in
    let t : Twin = record (twin_from_grpc m) { property = some (embedded i) } in
    (t ∷ ts, cons_both-some (ap (linked_twin (twin_from_grpc m)) f) e, (there, k))

-- The instance that is built of a device with a specification, with a model whose properties have
-- names, is complete: every twin is linked to a property. There is no use of a null pointer.
pub get_device_from_grpc-Linked :
    (j : Cjson) (d : DeviceMessage) (model : DeviceModel) (old : DeviceInstance) {s : SpecMessage}
    → d.spec ≡ some s
    → all_named model.properties ≡ true
    → (inst : DeviceInstance) × (get_device_from_grpc j d (some model) old ≡ some inst)
      × Linked inst.properties inst.twins
unfolding get_device_from_grpc link_instance built_instance
get_device_from_grpc-Linked j d model old {s} e a =
    let built = built_instance j d s old in
    let (ps, f, n) =
      link_properties-NamesOf model.properties built.properties s.properties a
        (NamesOf-property_from_grpc j _ _ s.properties) in
    let (ts, g, l) = link_twins-Linked ps s.properties (NamesOf-AllHit ps s.properties n) in
    (
      record built { properties = ps; twins = ts },
      ap
            (λ (o : Option SpecMessage). elim o [
              | none ↦ none
              | some s ↦ link_with (some model) (built_instance j d s old)
            ])
            e
          ∙ linked model.properties built f g,
      l,
    )
