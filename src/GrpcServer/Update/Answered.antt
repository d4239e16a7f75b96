-- ===== src/GrpcServer/Update/Answered.antt =====
-- What the answer of `UpdateDevice` tells of the commands that were run.
use mapper_framework_c.Prelude.{
  ◌≡◌, refl, ℕ, zero, suc, ◌+◌, true, false, inl, inr, Option, none, some, Option-cases, List, [],
  ◌∷◌, all-append, if_holds, if◌then◌else◌, arith,
}
use mapper_framework_c.Prelude.Int.{ℤ, leb_ℤ}
use mapper_framework_c.Prelude.CString.{Str}
use mapper_framework_c.Common.Const.{is_zero}
use mapper_framework_c.Common.ConfigMapType.{Twin}
use mapper_framework_c.Device.Types.{Device, DeviceManager}
use mapper_framework_c.Device.World.{World, Effect}
use mapper_framework_c.GrpcServer.DirectWrite.{get_apply_timeout_ms, write_modbus_direct}
use mapper_framework_c.GrpcServer.DirectWrite.Registers.{
  is_failure, all_failed, write_modbus_direct-all_failed,
}
use mapper_framework_c.GrpcServer.Apply.{CloudProperty, CloudDevice, wish, Delays, count_if}
use mapper_framework_c.GrpcServer.Apply.Found.{
  Answer, local_device, twins_found, write_all, any_ok, properties_of, all_direct, refuse_unnamed,
  apply_named, apply_to_device, apply_desired_to_device, apply_desired_to_device_with_timeout,
}
use mapper_framework_c.GrpcServer.Apply.Counted.{
  in_time, apply_properties-Told, write_all-all_failed,
}
use mapper_framework_c.GrpcServer.Update.{
  Updated, sync_named, force_all, is_forced, not_applied, status_of, fall_back, update_normally,
  after_force, update_found, update_device,
}

any_ok_zero : (n : ℕ) → is_zero (any_ok n) ≡ false → n ≡ 0
any_ok_zero zero h = refl
any_ok_zero (suc n) h = absurd (cc h)

module _ (w : World) where
  abbrev Told : Answer → Type 0
  Told a = is_zero a.code ≡ false → all_failed w a.effects ≡ true

  all_direct-Told : (dev : CloudDevice) → Told (all_direct w dev)
  unfolding all_direct
  all_direct-Told dev h =
      write_all-all_failed w (properties_of dev) (any_ok_zero (write_all w (properties_of dev)).0 h)

  apply_to_device-Told :
      (took : ℕ → ℤ) (d : Device) (dev : CloudDevice)
      → ((k : ℕ) → in_time w (took k) ≡ true)
      → Told (apply_to_device w took d dev)
  unfolding apply_to_device
  apply_to_device-Told took d dev e h =
      apply_properties-Told w took d.instance_of (properties_of dev) 0 d.instance_of.twins e
        (any_ok_zero _ h)

  apply-Told :
      (took : ℕ → ℤ) (m : Option DeviceManager) (dev : CloudDevice)
      → ((k : ℕ) → in_time w (took k) ≡ true)
      → Told (apply_desired_to_device w took m dev)
  unfolding apply_desired_to_device refuse_unnamed apply_named
  apply-Told took none dev e = all_direct-Told dev
  apply-Told took (some m) dev e = by_name dev.name (local_device (some m) dev)
    where
      by_name : (name : Str) (found : Option Device) → Told (refuse_unnamed w took dev name found)
      by_name [] found = λ h. refl
      by_name (c ∷ name) none = all_direct-Told dev
      by_name (c ∷ name) (some d) = apply_to_device-Told took d dev e

  -- No call takes longer than its limit.
  pub record InTime (delays : Delays) : Type 0 where
    pub apply_in_time : leb_ℤ delays.apply_ms (get_apply_timeout_ms w) ≡ true
    pub deals_in_time : (k : ℕ) → in_time w (delays.deal_ms k) ≡ true

  timed-Told :
      (delays : Delays) (m : Option DeviceManager) (dev : CloudDevice)
      → InTime delays
      → Told (apply_desired_to_device_with_timeout w delays m dev)
  unfolding apply_desired_to_device_with_timeout
  timed-Told delays m dev e h =
      apply-Told delays.deal_ms m dev e.deals_in_time (rw e.apply_in_time at h)

  -- An update that is not applied has run no command with success.
  abbrev Refused : Updated → Type 0
  Refused u = u.status ≡ not_applied → all_failed w u.effects ≡ true

  status_of_zero : (n : ℕ) → status_of n ≡ not_applied → n ≡ 0
  status_of_zero zero h = refl
  status_of_zero (suc n) h = absurd (cc h)

  fall_back-Refused :
      (spec : Option (List CloudProperty)) (a : Answer) → Told a → Refused (fall_back w spec a)
  unfolding fall_back
  fall_back-Refused none a f = λ h. absurd (cc h)
  fall_back-Refused (some ps) a f =
      if_holds Refused (is_zero a.code) (λ y h. absurd (cc h))
        (λ n h.
          rw (all-append (is_failure w) a.effects (write_all w ps).1, f n)
            (write_all-all_failed w ps (status_of_zero (write_all w ps).0 h)))

  force_all-all_failed :
      (ps : List CloudProperty) (ts : List Twin)
      → (force_all w ps ts).0 ≡ 0
      → all_failed w (force_all w ps ts).2 ≡ true
  unfolding force_all
  force_all-all_failed [] ts h = refl
  force_all-all_failed (p ∷ ps) ts h = elim (Option-cases (wish p)) [
    | inl n ↦ rw (n, force_all) (force_all-all_failed ps ts (rw (n, force_all) at h))
    | inr (v, y) ↦ both v y (rw (y, force_all) at h) (force_all-all_failed ps (written v))
  ]
    where
      written : Str → List Twin
      written v =
          if is_zero (write_modbus_direct w p.name v).0 then sync_named w p.name v ts else ts

      both :
          (v : Str)
          → wish p ≡ some v
          → count_if (is_zero (write_modbus_direct w p.name v).0) + (force_all w ps (written v)).0
            ≡ 0
          → ((force_all w ps (written v)).0 ≡ 0
              → all_failed w (force_all w ps (written v)).2 ≡ true)
          → all_failed w (force_all w (p ∷ ps) ts).2 ≡ true
      both v y s later =
          rw
            (
              y,
              force_all,
              all-append (is_failure w) (write_modbus_direct w p.name v).1
                  (force_all w ps (written v)).2,
              write_modbus_direct-all_failed w p.name v (ground arith),
            )
            (later (omega (arith, s)))

  after_force-Refused :
      (n : ℕ) (ts : List Twin) (effects : List Effect) (normal : Updated)
      → (n ≡ 0 → all_failed w effects ≡ true)
      → Refused normal
      → Refused (after_force (n, ts, effects) normal)
  unfolding after_force
  after_force-Refused zero ts effects normal f r h =
      rw (all-append (is_failure w) effects normal.effects, f refl) (r h)
  after_force-Refused (suc n) ts effects normal f r h = absurd (cc h)

  update_normally-Refused :
      (delays : Delays) (m : Option DeviceManager) (dev : CloudDevice)
      → InTime delays
      → Refused (update_normally w delays m dev)
  unfolding update_normally
  update_normally-Refused delays m dev e =
      fall_back-Refused dev.spec (apply_desired_to_device_with_timeout w delays m dev)
        (timed-Told delays m dev e)

  update_found-Refused :
      (delays : Delays) (m : Option DeviceManager) (dev : CloudDevice)
      → InTime delays
      → Refused (update_found w delays m dev)
  unfolding update_found
  update_found-Refused delays m dev e = by_spec dev.spec
    where
      by_spec :
          (spec : Option (List CloudProperty))
          → Refused (elim spec [
            | none ↦ update_normally w delays m dev
            | some ps ↦
                if is_forced w
                then after_force
                    (force_all w ps (twins_found (local_device m dev)))
                    (update_normally w delays m dev)
                else update_normally w delays m dev
          ])
      by_spec none = update_normally-Refused delays m dev e
      by_spec (some ps) =
          if_holds Refused (is_forced w)
            (λ y.
              forced (force_all w ps (twins_found (local_device m dev)))
                (force_all-all_failed ps (twins_found (local_device m dev))))
            (λ n. update_normally-Refused delays m dev e)
        where
          forced :
              (r : ℕ × List Twin × List Effect)
              → (r.0 ≡ 0 → all_failed w r.2 ≡ true)
              → Refused (after_force r (update_normally w delays m dev))
          forced (n, ts, effects) f =
              after_force-Refused n ts effects (update_normally w delays m dev) f
                (update_normally-Refused delays m dev e)

-- If every call stays within its limit, an update that is answered with "not applied" has run no
-- command that succeeded, whichever way the values were written: by force, by way of the twins, or
-- directly.
pub update_device-all_failed :
    (w : World) (delays : Delays) (m : Option DeviceManager) (request : Option CloudDevice)
    → InTime w delays
    → (update_device w delays m request).status ≡ not_applied
    → all_failed w (update_device w delays m request).effects ≡ true
unfolding update_device
update_device-all_failed w delays m none e h = refl
update_device-all_failed w delays m (some dev) e h = update_found-Refused w delays m dev e h
