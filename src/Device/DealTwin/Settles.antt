-- ===== src/Device/DealTwin/Settles.antt =====
-- What `device_deal_twin` leaves behind on each of its branches.
use mapper_framework_c.Prelude.{
  ◌≡◌, ◌≢◌, refl, true, false, Bool-cases, inl, inr, arith, none, some, Option-cases, [], ◌∷◌, ◌++◌,
}
use mapper_framework_c.Prelude.CString.{Str, str_eq_refl}
use mapper_framework_c.Common.Const.{success, failure, is_zero}
use mapper_framework_c.Common.ConfigMapType.{Twin, DeviceInstance}
use mapper_framework_c.Device.World.{World, run_command, sim_temperature_enabled}
use mapper_framework_c.Device.DealTwin.{
  is_simulated, pending, Write, deal_request, exit_code, Deal, report, record_effects,
  publish_effects, device_deal_twin,
}

pending-report :
    (w : World) (t : Twin) (v : Str) → pending t ≡ some v → pending (report w t v) ≡ none
unfolding pending
pending-report w t v h = ground (arith, str_eq_refl v)

pub is_simulated_same :
    (w w' : World) (t t' : Twin)
    → sim_temperature_enabled w' ≡ sim_temperature_enabled w
    → t'.property_name ≡ t.property_name
    → is_simulated w' t' ≡ is_simulated w t
unfolding is_simulated
is_simulated_same w w' t t' e p = rw (e, p)

-- The desired value of a request is the pending one.
request-pending :
    (w : World) (inst : DeviceInstance) (t : Twin) (r : Write)
    → deal_request w inst t ≡ some r
    → pending t ≡ some r.desired
unfolding deal_request
request-pending w inst t r h = ground arith

pub no_request :
    (w : World) (inst : DeviceInstance) (t : Twin) → pending t ≡ none → deal_request w inst t ≡ none
unfolding deal_request
no_request w inst t h = ground arith

-- What a call does that had something to write.
pub data Outcome (w : World) (inst : DeviceInstance) (t : Twin) : Deal → Type 0 where
  skipped :
      {d : Deal}
      → d ≡ record { twin = t; code = success; effects = [] }
      → deal_request w inst t ≡ none
      → Outcome w inst t d
  refused :
      {d : Deal} (r : Write)
      → deal_request w inst t ≡ some r
      → is_zero (exit_code (w.system r.command)) ≡ false
      → d ≡ record { twin = t; code = failure; effects = run_command r.command ∷ [] }
      → Outcome w inst t d
  written :
      {d : Deal} (r : Write)
      → deal_request w inst t ≡ some r
      → pending t ≡ some r.desired
      → is_zero (exit_code (w.system r.command)) ≡ true
      → d ≡ record {
        twin = report w t r.desired;
        code = success;
        effects =
            run_command r.command
            ∷ (record_effects w inst t (some r.desired) ++ publish_effects w inst t r.desired);
      }
      → Outcome w inst t d

pub outcome_of :
    (w : World) (inst : DeviceInstance) (t : Twin) → Outcome w inst t (device_deal_twin w inst t)
unfolding device_deal_twin
outcome_of w inst t = elim (Option-cases (deal_request w inst t)) [
  | inl e ↦ skipped (rw e) e
  | inr (r, e) ↦ elim (Bool-cases (is_zero (exit_code (w.system r.command)))) [
    | inl z ↦ written r e (request-pending w inst t r e) z (rw (e, z))
    | inr z ↦ refused r e z (rw (e, z))
  ]
]

abbrev idle : Twin → Deal
idle t = record { twin = t; code = success; effects = [] }

pub idle_if_no_request :
    (w : World) (inst : DeviceInstance) (t : Twin)
    → deal_request w inst t ≡ none
    → device_deal_twin w inst t ≡ idle t
unfolding device_deal_twin
idle_if_no_request w inst t h = rw h

-- Whether there is a request depends on the twin and the switch of the simulation only.
no_request_later :
    (w w' : World) (inst inst' : DeviceInstance) (t : Twin)
    → sim_temperature_enabled w' ≡ sim_temperature_enabled w
    → deal_request w inst t ≡ none
    → deal_request w' inst' t ≡ none
unfolding deal_request
no_request_later w w' inst inst' t e h = ground (arith, is_simulated_same w w' t t e refl)

-- After a call that returned 0 there is nothing to write, at any time with the same switch.
pub settled :
    (w w' : World) (inst inst' : DeviceInstance) (t : Twin)
    → (device_deal_twin w inst t).code ≡ success
    → sim_temperature_enabled w' ≡ sim_temperature_enabled w
    → deal_request w' inst' (device_deal_twin w inst t).twin ≡ none
settled w w' inst inst' t h e = by_outcome (outcome_of w inst t) h
  where
    by_outcome :
        {d : Deal} → Outcome w inst t d → d.code ≡ success → deal_request w' inst' d.twin ≡ none
    by_outcome (skipped s none_now) h = rw s (no_request_later w w' inst inst' t e none_now)
    by_outcome (refused r some_now z s) h = cc
    by_outcome (written r some_now p z s) h =
        rw s (no_request w' inst' (report w t r.desired) (pending-report w t r.desired p))

-- After a call that returns 0 a second call, at any later time at which the simulation is switched
-- as before, does nothing: no command, no row, no message, and the twin stays as it is.
pub device_deal_twin-settles :
    (w w' : World) (inst : DeviceInstance) (t : Twin)
    → (device_deal_twin w inst t).code ≡ success
    → sim_temperature_enabled w' ≡ sim_temperature_enabled w
    → device_deal_twin w' inst (device_deal_twin w inst t).twin
      ≡ record { twin = (device_deal_twin w inst t).twin; code = success; effects = [] }
device_deal_twin-settles w w' inst t h e =
    idle_if_no_request w' inst (device_deal_twin w inst t).twin (settled w w' inst inst t h e)

-- A call that does not return 0 has run one command that failed, has changed nothing, and has
-- neither stored nor published anything.
pub device_deal_twin-failure :
    (w : World) (inst : DeviceInstance) (t : Twin)
    → (device_deal_twin w inst t).code ≢ success
    → (r : Write) × (deal_request w inst t ≡ some r)
      × (is_zero (exit_code (w.system r.command)) ≡ false)
      × (device_deal_twin w inst t
          ≡ record { twin = t; code = failure; effects = run_command r.command ∷ [] })
device_deal_twin-failure w inst t h = by_outcome (outcome_of w inst t) h
  where
    by_outcome :
        {d : Deal}
        → Outcome w inst t d
        → d.code ≢ success
        → (r : Write) × (deal_request w inst t ≡ some r)
          × (is_zero (exit_code (w.system r.command)) ≡ false)
          × (d ≡ record { twin = t; code = failure; effects = run_command r.command ∷ [] })
    by_outcome (skipped s none_now) h = absurd (h (cc))
    by_outcome (refused r some_now z s) h = (r, some_now, z, s)
    by_outcome (written r some_now p z s) h = absurd (h (cc))
