-- ===== src/Parse/TwinConv/RoundTrip.antt =====
-- Twins that go out as messages and come back.
use mapper_framework_c.Prelude.{
  ◌≡◌, refl, ap, sym, ◌∙◌, Bool, true, false, not, ◌&&◌, Bool-cases, inl, inr, if◌then◌else◌,
  Option, none, some, Option-cases, is_some, List, [], ◌∷◌, map, any, arith,
}
use mathlib.Core.Path.{subst}
use mapper_framework_c.Prelude.CString.{Str, str_eq, str_eq_refl}
use mapper_framework_c.Common.ConfigMapType.{Twin, DeviceProperty, PropertyRef}
use mapper_framework_c.Device.Twins.{has_name}
use mapper_framework_c.Device.Rebuild.Links.{target, RefsValid}
use mapper_framework_c.Parse.TwinConv.{
  GrpcTwin, property_to_grpc, twin_to_grpc, conv_twins_to_grpc, find_source, set_entry, set_entries,
  update_property, update_twin, put, conv_grpc_to_twins,
}

-- All twins have names, and no two of them the same.
abbrev pub names_differ : List Twin → Bool
names_differ [] = true
names_differ (t ∷ ts) = elim t.property_name [
  | none ↦ false
  | some n ↦ not (any (has_name n) ts) && names_differ ts
]

-- Under the name of each twin the sources have what `old` makes of it.
abbrev AllFound : (old : Twin → Twin) → (src ts : List Twin) → Type 0
AllFound old src [] = Unit
AllFound old src (t ∷ ts) =
    (find_source t.property_name src ≡ some (some (old t))) × AllFound old src ts

-- The twin as it was earlier: it has the same name and the same property, and any values.
abbrev pub Earlier : Twin → Twin → Type 0
Earlier t u = (u.property_name ≡ t.property_name) × (u.property ≡ t.property)

find_source-cons :
    (m : Str) (x : Twin) (src : List Twin) {n : Str}
    → x.property_name ≡ some n
    → find_source (some m) (x ∷ src)
      ≡ (if str_eq m n then some (some x) else find_source (some m) src)
unfolding find_source
find_source-cons m x src e =
    ap
      (λ (o : Option Str). elim o [
        | none ↦ none
        | some n ↦ if str_eq m n then some (some x) else find_source (some m) src
      ])
      e

find_source-own :
    (x : Twin) (src : List Twin) {n : Str}
    → x.property_name ≡ some n
    → find_source x.property_name (x ∷ src) ≡ some (some x)
find_source-own x src {n} e =
    ap (λ (o : Option Str). find_source o (x ∷ src)) e
    ∙ find_source-cons n x src e
    ∙ ap (λ b. if b then some (some x) else find_source (some n) src) (str_eq_refl n)

find_source-null : (t : Twin) (src : List Twin) → ¬ (find_source none src ≡ some (some t))
unfolding find_source
find_source-null t [] h = cc
find_source-null t (x ∷ src) h = cc

found_behind :
    (x t u : Twin) (src : List Twin) {n : Str}
    → x.property_name ≡ some n
    → has_name n t ≡ false
    → find_source t.property_name src ≡ some (some u)
    → find_source t.property_name (x ∷ src) ≡ some (some u)
found_behind x t u src {n} e d f = elim (Option-cases t.property_name) [
  | inl o ↦ absurd (find_source-null u src (sym (ap (λ (o : Option Str). find_source o src) o) ∙ f))
  | inr (m, o) ↦
      let other : str_eq m n ≡ false = ground (arith) in
      ap (λ (o : Option Str). find_source o (x ∷ src)) o
      ∙ find_source-cons m x src e
      ∙ ap (λ b. if b then some (some x) else find_source (some m) src) other
      ∙ sym (ap (λ (o : Option Str). find_source o src) o)
      ∙ f
]

AllFound-cons :
    (old : Twin → Twin) (x : Twin) (src ts : List Twin) {n : Str}
    → x.property_name ≡ some n
    → any (has_name n) ts ≡ false
    → AllFound old src ts
    → AllFound old (x ∷ src) ts
AllFound-cons old x src [] e d f = tt
AllFound-cons old x src (t ∷ ts) {n} e d f = (
  found_behind x t (old t) src e (ground arith) f.0,
  AllFound-cons old x src ts e (ground arith) f.1,
)

names_differ-AllFound :
    (old : Twin → Twin) (ts : List Twin)
    → ((t : Twin) → Earlier t (old t))
    → names_differ ts ≡ true
    → AllFound old (map old ts) ts
names_differ-AllFound old [] s h = tt
names_differ-AllFound old (t ∷ ts) s h = elim (Option-cases t.property_name) [
  | inl e ↦ absurd (ground arith)
  | inr (n, e) ↦ (
    ap (λ (o : Option Str). find_source o (old t ∷ map old ts)) (sym (s t).0)
        ∙ find_source-own (old t) (map old ts) ((s t).0 ∙ e),
    AllFound-cons old (old t) (map old ts) ts ((s t).0 ∙ e) (ground arith)
        (names_differ-AllFound old ts s (ground arith)),
  )
]

update_twin-twin_to_grpc : (t u : Twin) → Earlier t u → update_twin u (twin_to_grpc t) ≡ t
unfolding update_twin twin_to_grpc property_to_grpc update_property set_entries set_entry str_eq
update_twin-twin_to_grpc t u e =
    ap (λ (n : Option Str). record (record t { property = u.property }) { property_name = n }) e.0
    ∙ ap (λ (p : Option PropertyRef). record t { property = p }) e.1

put-both :
    (g : GrpcTwin) {t : Twin} {ts : List Twin} {o : Option (Option Twin)} {r : Option (List Twin)}
    → o ≡ some (some t)
    → r ≡ some ts
    → put o g r ≡ some (update_twin t g ∷ ts)
put-both g e h = rw (e, h)

back_from :
    (old : Twin → Twin) (src ts : List Twin)
    → ((t : Twin) → Earlier t (old t))
    → AllFound old src ts
    → conv_grpc_to_twins (map twin_to_grpc ts) src ≡ some ts
unfolding conv_grpc_to_twins twin_to_grpc
back_from old src [] s f = refl
back_from old src (t ∷ ts) s f =
    put-both (twin_to_grpc t) f.0 (back_from old src ts s f.1)
    ∙ ap (λ u. some (u ∷ ts)) (update_twin-twin_to_grpc t (old t) (s t))

-- Twins that all have names, no two the same, are sent as messages and received by a side that has
-- them as they were earlier: with the same names and properties, but any values and metadata. What
-- comes out is the twins as they were sent.
pub conv_grpc_to_twins-conv_twins_to_grpc :
    (old : Twin → Twin) (ts : List Twin)
    → ((t : Twin) → Earlier t (old t))
    → names_differ ts ≡ true
    → conv_grpc_to_twins (conv_twins_to_grpc ts) (map old ts) ≡ some ts
unfolding conv_twins_to_grpc
conv_grpc_to_twins-conv_twins_to_grpc old ts s h =
    back_from old (map old ts) ts s (names_differ-AllFound old ts s h)

-- A pointer of a twin leads to one of the properties, or is null.
abbrev Valid : List DeviceProperty → Twin → Type 0
Valid ps t = is_some t.property ≡ true → is_some (target ps t) ≡ true

find_source-Valid :
    (ps : List DeviceProperty) (name : Option Str) (src : List Twin) {t : Twin}
    → RefsValid ps src
    → find_source name src ≡ some (some t)
    → Valid ps t
find_source-Valid ps name [] v h = unfold find_source in absurd (cc)
find_source-Valid ps none (x ∷ src) {t} v h = absurd (find_source-null t (x ∷ src) h)
find_source-Valid ps (some m) (x ∷ src) {t} v h = elim (Option-cases x.property_name) [
  | inl o ↦ absurd (nameless o)
  | inr (n, o) ↦ elim (Bool-cases (str_eq m n)) [
    | inl y ↦
        let same : x ≡ t = found_first n (sym (step n o) ∙ h) y in subst (λ u. Valid ps u) same v.0
    | inr z ↦ find_source-Valid ps (some m) src v.1 (found_later n (sym (step n o) ∙ h) z)
  ]
]
  where
    step :
        (n : Str)
        → x.property_name ≡ some n
        → find_source (some m) (x ∷ src)
          ≡ (if str_eq m n then some (some x) else find_source (some m) src)
    step n o = find_source-cons m x src o

    nameless : x.property_name ≡ none → ⊥
    nameless o = unfold find_source in cc (rw o at h)

    found_first :
        (n : Str)
        → (if str_eq m n then some (some x) else find_source (some m) src) ≡ some (some t)
        → str_eq m n ≡ true
        → x ≡ t
    found_first n e y = cc (rw y at e)

    found_later :
        (n : Str)
        → (if str_eq m n then some (some x) else find_source (some m) src) ≡ some (some t)
        → str_eq m n ≡ false
        → find_source (some m) src ≡ some (some t)
    found_later n e z = rw z at e

put-RefsValid :
    (ps : List DeviceProperty) (g : GrpcTwin) (o : Option (Option Twin)) (r : Option (List Twin))
    {ts : List Twin}
    → ((t : Twin) → o ≡ some (some t) → Valid ps t)
    → ((us : List Twin) → r ≡ some us → RefsValid ps us)
    → put o g r ≡ some ts
    → RefsValid ps ts
put-RefsValid ps g none r v w h = absurd (cc)
put-RefsValid ps g (some none) r {ts} v w h = w ts h
put-RefsValid ps g (some (some t)) none v w h = absurd (cc)
put-RefsValid ps g (some (some t)) (some us) {ts} v w h =
    subst (λ us. RefsValid ps us) (kept h) ((unfold update_twin in v t refl), w us refl)
  where
    kept : some (update_twin t g ∷ us) ≡ some ts → update_twin t g ∷ us ≡ ts
    kept h = cc

-- Whatever messages come in, the twins that are made of them point at no property outside of the
-- list, if those of the sources do not.
pub conv_grpc_to_twins-RefsValid :
    (ps : List DeviceProperty) (gs : List GrpcTwin) (src ts : List Twin)
    → RefsValid ps src
    → conv_grpc_to_twins gs src ≡ some ts
    → RefsValid ps ts
unfolding conv_grpc_to_twins
conv_grpc_to_twins-RefsValid ps [] src ts v h = subst (λ us. RefsValid ps us) (empty h) tt
  where
    empty : some [] ≡ some ts → [] ≡ ts
    empty h = cc
conv_grpc_to_twins-RefsValid ps (g ∷ gs) src ts v h =
    put-RefsValid ps g (find_source g.property_name src) (conv_grpc_to_twins gs src)
      (λ t e. find_source-Valid ps g.property_name src v e)
      (λ us e. conv_grpc_to_twins-RefsValid ps gs src us v e) h
