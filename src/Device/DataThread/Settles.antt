-- ===== src/Device/DataThread/Settles.antt =====
-- A round in which every command succeeds leaves nothing to write for the next one.
use mapper_framework_c.Prelude.{
  ◌≡◌, refl, ap, ◌∙◌, true, false, Bool-cases, inl, inr, arith, Option, none, some, Option-cases,
  List, [], ◌∷◌, ◌++◌, map,
}
use mapper_framework_c.Prelude.CString.{Str}
use mapper_framework_c.Common.Const.{is_zero, success}
use mapper_framework_c.Common.ConfigMapType.{Twin, DeviceInstance}
use mapper_framework_c.Common.DataModel.{DataModel}
use mapper_framework_c.Device.Types.{Device}
use mapper_framework_c.Device.World.{
  World, Effect, run_command, record_row, publish_value, sim_temperature_enabled,
}
use mapper_framework_c.Device.Simulate.{Simulation}
use mapper_framework_c.Device.DealTwin.{
  Deal, is_simulated, recorded, record_effects, exit_code, deal_request, device_deal_twin,
}
use mapper_framework_c.Device.DealTwin.Settles.{
  Outcome, skipped, refused, written, outcome_of, is_simulated_same, settled, idle_if_no_request,
}
use mapper_framework_c.Device.DataThread.{
  refresh, simulated_step, dealt_step, named_step, thread_twin, pass_twins, is_ok,
  data_thread_round,
}

-- The commands among the effects.
abbrev pub commands : List Effect → List Str
commands [] = []
commands (run_command c ∷ es) = c ∷ commands es
commands (record_row r ∷ es) = commands es
commands (publish_value m ∷ es) = commands es

commands-append : (xs ys : List Effect) → commands (xs ++ ys) ≡ commands xs ++ commands ys
commands-append [] ys = refl
commands-append (run_command c ∷ xs) ys = ap (λ r. c ∷ r) (commands-append xs ys)
commands-append (record_row r ∷ xs) ys = commands-append xs ys
commands-append (publish_value m ∷ xs) ys = commands-append xs ys

no_commands-append :
    (xs ys : List Effect) → commands xs ≡ [] → commands ys ≡ [] → commands (xs ++ ys) ≡ []
no_commands-append xs ys h k = rw (commands-append, h, k)

commands-record_effects :
    (w : World) (inst : DeviceInstance) (t : Twin) (v : Option Str)
    → commands (record_effects w inst t v) ≡ []
unfolding record_effects
commands-record_effects w inst t v = none_in _
  where
    none_in : (o : Option DataModel) → commands (recorded o) ≡ []
    none_in none = refl
    none_in (some r) = refl

-- Every command of this world succeeds.
abbrev pub AllSucceed : World → Type 0
AllSucceed w = (c : Str) → is_zero (exit_code (w.system c)) ≡ true

code-AllSucceed :
    (w : World) (inst : DeviceInstance) (t : Twin)
    → AllSucceed w
    → (device_deal_twin w inst t).code ≡ success
code-AllSucceed w inst t h = by_outcome (outcome_of w inst t)
  where
    by_outcome : {d : Deal} → Outcome w inst t d → d.code ≡ success
    by_outcome (skipped s e) = cc
    by_outcome (refused r e z s) = cc (h r.command)
    by_outcome (written r e p z s) = cc

property_name-deal :
    (w : World) (inst : DeviceInstance) (t : Twin)
    → (device_deal_twin w inst t).twin.property_name ≡ t.property_name
property_name-deal w inst t = by_outcome (outcome_of w inst t)
  where
    by_outcome : {d : Deal} → Outcome w inst t d → d.twin.property_name ≡ t.property_name
    by_outcome (skipped s e) = rw s
    by_outcome (refused r e z s) = rw s
    by_outcome (written r e p z s) = rw s

property_name-refresh :
    (w : World) (t : Twin) (b : Str) → (refresh w t b).property_name ≡ t.property_name
unfolding refresh
property_name-refresh w t b = ground arith

-- The three cases of `thread_twin`.
module _ (w : World) (inst : DeviceInstance) (s : Simulation) (t : Twin) where
  thread_twin-nameless :
      t.property_name ≡ none
      → thread_twin w inst s t ≡ record { twin = t; simulation = s; effects = [] }
  unfolding thread_twin
  thread_twin-nameless e = ap (named_step w inst s t) e

  thread_twin-simulated :
      {n : Str}
      → t.property_name ≡ some n
      → is_simulated w t ≡ true
      → thread_twin w inst s t ≡ simulated_step w inst s t
  unfolding thread_twin
  thread_twin-simulated e y = ap (named_step w inst s t) e ∙ rw y

  thread_twin-dealt :
      {n : Str}
      → t.property_name ≡ some n
      → is_simulated w t ≡ false
      → thread_twin w inst s t ≡ dealt_step w inst s t
  unfolding thread_twin
  thread_twin-dealt e y = ap (named_step w inst s t) e ∙ rw y

  property_name-thread_twin : (thread_twin w inst s t).twin.property_name ≡ t.property_name
  property_name-thread_twin = elim (Option-cases t.property_name) [
    | inl e ↦ rw (thread_twin-nameless e)
    | inr (n, e) ↦ elim (Bool-cases (is_simulated w t)) [
      | inl y ↦
          rw (thread_twin-simulated e y) (unfold simulated_step in property_name-refresh w t _)
      | inr y ↦ rw (thread_twin-dealt e y) (unfold dealt_step in property_name-deal w inst t)
    ]
  ]

-- A round changes neither the number nor the names of the twins, nor their order.
pub property_names-pass_twins :
    (w : World) (inst : DeviceInstance) (s : Simulation) (ts : List Twin)
    → map (λ (t : Twin). t.property_name) (pass_twins w inst s ts).twins
      ≡ map (λ (t : Twin). t.property_name) ts
unfolding pass_twins
property_names-pass_twins w inst s [] = refl
property_names-pass_twins w inst s (t ∷ ts) = rw (
  property_name-thread_twin w inst s t,
  property_names-pass_twins w inst (thread_twin w inst s t).simulation ts,
)

module _ (w w' : World) (inst inst' : DeviceInstance)
    (same : sim_temperature_enabled w' ≡ sim_temperature_enabled w) (succeed : AllSucceed w) where
  no_commands-dealt :
      (s s' : Simulation) (t : Twin)
      → thread_twin w inst s t ≡ dealt_step w inst s t
      → commands (dealt_step w' inst' s' (thread_twin w inst s t).twin).effects ≡ []
  unfolding dealt_step
  no_commands-dealt s s' t e =
      let d = device_deal_twin w inst t in
      let later : deal_request w' inst' d.twin ≡ none =
        settled w w' inst inst' t (code-AllSucceed w inst t succeed) same in
      rw e (rw (idle_if_no_request w' inst' d.twin later) refl)

  no_commands-thread_twin :
      (s s' : Simulation) (t : Twin)
      → commands (thread_twin w' inst' s' (thread_twin w inst s t).twin).effects ≡ []
  no_commands-thread_twin s s' t =
      let t' = (thread_twin w inst s t).twin in
      let name : t'.property_name ≡ t.property_name = property_name-thread_twin w inst s t in
      let simulated = is_simulated_same w w' t t' same name in
      elim (Option-cases t.property_name) [
        | inl e ↦ rw (thread_twin-nameless w' inst' s' t' (name ∙ e)) refl
        | inr (n, e) ↦ elim (Bool-cases (is_simulated w t)) [
          | inl y ↦
              rw (thread_twin-simulated w' inst' s' t' (name ∙ e) (simulated ∙ y))
                (unfold simulated_step in commands-record_effects w' inst' _ _)
          | inr y ↦
              rw (thread_twin-dealt w' inst' s' t' (name ∙ e) (simulated ∙ y))
                (no_commands-dealt s s' t (thread_twin-dealt w inst s t e y))
        ]
      ]

  no_commands-pass_twins :
      (s s' : Simulation) (ts : List Twin)
      → commands (pass_twins w' inst' s' (pass_twins w inst s ts).twins).effects ≡ []
  unfolding pass_twins
  no_commands-pass_twins s s' [] = refl
  no_commands-pass_twins s s' (t ∷ ts) =
      let one = thread_twin w inst s t in
      let again = thread_twin w' inst' s' one.twin in
      no_commands-append again.effects _ (no_commands-thread_twin s s' t)
        (no_commands-pass_twins one.simulation again.simulation ts)

-- If every command of a round succeeds then the next round, with the simulation switched as
-- before, runs no command, whatever else the world is like then.
pub data_thread_round-settles :
    (w w' : World) (d : Device) (s s' : Simulation)
    → AllSucceed w
    → sim_temperature_enabled w' ≡ sim_temperature_enabled w
    → commands (data_thread_round w' (data_thread_round w d s).device s').effects ≡ []
unfolding data_thread_round
data_thread_round-settles w w' d s s' h e = elim (Bool-cases (is_ok d.status)) [
  | inl y ↦ rw (y, y) (no_commands-pass_twins w w' _ _ e h s s' d.instance_of.twins)
  | inr n ↦ rw (n, n) refl
]
