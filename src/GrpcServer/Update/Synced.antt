-- ===== src/GrpcServer/Update/Synced.antt =====
-- What the data thread finds behind a value that was written by force.
use mapper_framework_c.Prelude.{
  ◌≡◌, refl, ap, true, false, Bool, if◌then◌else◌, Bool-cases, Option, some, ◌∙◌, Option-cases, inl,
  inr, List, [], ◌∷◌, ◌++◌, any, arith, none,
}
use mapper_framework_c.Prelude.CString.{Str, str_eq_refl}
use mapper_framework_c.Common.ConfigMapType.{Twin, DeviceInstance}
use mapper_framework_c.Device.World.{World}
use mapper_framework_c.Device.Twins.{has_name}
use mapper_framework_c.Device.DealTwin.{Deal, pending, is_simulated}
use mapper_framework_c.Device.DataThread.{thread_twin, named_step, simulated_step, dealt_step}
use mapper_framework_c.Device.Simulate.{Simulation}
use mapper_framework_c.Device.DealTwin.Settles.{is_simulated_same, no_request, idle_if_no_request}
use mapper_framework_c.GrpcServer.Update.{sync, sync_named}

sync_named-first :
    (w : World) (name value : Str) (before after : List Twin) (t : Twin)
    → any (has_name name) before ≡ false
    → has_name name t ≡ true
    → sync_named w name value (before ++ t ∷ after) ≡ before ++ sync w value t ∷ after
unfolding sync_named
sync_named-first w name value [] after t u y = rw y refl
sync_named-first w name value (x ∷ before) after t u y = elim (Bool-cases (has_name name x)) [
  | inl e ↦ absurd (cc (rw e at u))
  | inr e ↦
      rw e
        (ap (λ (l : List Twin). x ∷ l) (sync_named-first w name value before after t (rw e at u) y))
]

sync-pending : (w : World) (value : Str) (t : Twin) → pending (sync w value t) ≡ none
unfolding pending
sync-pending w [] t = refl
sync-pending w (c ∷ s) t = ground (arith, str_eq_refl (c ∷ s))

-- The twin with the name of the property goes through the data thread as it is, if it is not the
-- simulated one.
synced-thread_twin :
    (later : World) (inst : DeviceInstance) (sim : Simulation) (w : World) (value : Str) (t : Twin)
    {n : Str}
    → t.property_name ≡ some n
    → is_simulated later t ≡ false
    → thread_twin later inst sim (sync w value t)
      ≡ record { twin = sync w value t; simulation = sim; effects = [] }
unfolding thread_twin dealt_step
synced-thread_twin later inst sim w value t e f =
    ap (λ (o : Option Str). named_step later inst sim (sync w value t) o) e
    ∙ ap
        (λ (b : Bool).
          if b
          then simulated_step later inst sim (sync w value t)
          else dealt_step later inst sim (sync w value t))
        (is_simulated_same later later t (sync w value t) refl refl ∙ f)
    ∙ ap (λ (d : Deal). record { twin = d.twin; simulation = sim; effects = d.effects })
        (idle_if_no_request later inst (sync w value t)
          (no_request later inst (sync w value t) (sync-pending w value t)))

-- After a write by force only the first twin with the name of the property is another. If it is not
-- the simulated one, the data thread, at any later time, does nothing for it: it runs no command,
-- stores and publishes nothing, and leaves the twin as it is.
pub sync_named-settles :
    (w later : World) (inst : DeviceInstance) (sim : Simulation) (name value : Str)
    (before after : List Twin) (t : Twin)
    → any (has_name name) before ≡ false
    → has_name name t ≡ true
    → is_simulated later t ≡ false
    → (sync_named w name value (before ++ t ∷ after) ≡ before ++ sync w value t ∷ after)
      × (thread_twin later inst sim (sync w value t)
          ≡ record { twin = sync w value t; simulation = sim; effects = [] })
sync_named-settles w later inst sim name value before after t u y f = (
  sync_named-first w name value before after t u y,
  elim (Option-cases t.property_name) [
    | inl e ↦ absurd (cc (rw e at y))
    | inr (n, e) ↦ synced-thread_twin later inst sim w value t e f
  ],
)
