-- ===== src/GrpcServer/Apply/Counted.antt =====
-- What a code other than 0 tells of the commands that were run.
use mapper_framework_c.Prelude.{
  ◌≡◌, refl, ℕ, suc, ◌+◌, Bool, true, false, inl, inr, Option, none, some, Option-cases, List, [],
  ◌∷◌, all-append, if_holds, get_elem?, set, arith,
}
use mapper_framework_c.Prelude.Int.{ℤ, leb_ℤ}
use mapper_framework_c.Prelude.CString.{Str}
use mapper_framework_c.Common.Const.{is_zero}
use mapper_framework_c.Common.ConfigMapType.{Twin, DeviceInstance}
use mapper_framework_c.Device.World.{World, Effect}
use mapper_framework_c.Device.DealTwin.{Deal, exit_code}
use mapper_framework_c.Device.DealTwin.Settles.{Outcome, skipped, refused, written, outcome_of}
use mapper_framework_c.GrpcServer.DirectWrite.{get_device_timeout_ms, ran, write_modbus_direct}
use mapper_framework_c.GrpcServer.DirectWrite.Registers.{
  is_failure, all_failed, write_modbus_direct-all_failed,
}
use mapper_framework_c.GrpcServer.Apply.{
  CloudProperty, wish, device_deal_twin_with_timeout, apply_directly, dealt, apply_at, apply_value,
  match_index, Applied, desire, apply_property, apply_properties, count_if,
}
use mapper_framework_c.GrpcServer.Apply.Found.{write_all}

exit_code-ran : (status : Option ℕ) → is_zero (exit_code status) ≡ false → ran status ≡ false
unfolding exit_code
exit_code-ran none h = refl
exit_code-ran (some status) h = ground arith

all_failed_of :
    {w : World} {inst : DeviceInstance} {t : Twin} {d : Deal}
    → Outcome w inst t d
    → is_zero d.code ≡ false
    → all_failed w d.effects ≡ true
all_failed_of (skipped e n) h = absurd (cc (rw e at h))
all_failed_of {w} (refused r q z e) h = rw (e, exit_code-ran (w.system r.command) z) refl
all_failed_of (written r q p z e) h = absurd (cc (rw e at h))

-- The call ends within its limit.
abbrev pub in_time : World → ℤ → Bool
in_time w took = leb_ℤ took (get_device_timeout_ms w)

timed-all_failed :
    (w : World) (took : ℤ) (inst : DeviceInstance) (t : Twin)
    → in_time w took ≡ true
    → is_zero (device_deal_twin_with_timeout w took inst t).code ≡ false
    → all_failed w (device_deal_twin_with_timeout w took inst t).effects ≡ true
unfolding device_deal_twin_with_timeout
timed-all_failed w took inst t e h = all_failed_of (outcome_of w inst t) (rw e at h)

-- If no write of a step has succeeded all its commands have failed.
abbrev Told : World → Applied → Type 0
Told w a = a.updated + a.fallback_ok ≡ 0 → all_failed w a.effects ≡ true

apply_directly-Told :
    (w : World) (name value : Str) (ts : List Twin) (before : List Effect)
    → all_failed w before ≡ true
    → Told w (apply_directly w name value ts before)
unfolding apply_directly
apply_directly-Told w name value ts before b h =
    rw (all-append (is_failure w) before (write_modbus_direct w name value).1, b)
      (write_modbus_direct-all_failed w name value (ground arith))

dealt-Told :
    (w : World) (name value : Str) (ts : List Twin) (k : ℕ) (deal : Deal)
    → (is_zero deal.code ≡ false → all_failed w deal.effects ≡ true)
    → Told w (dealt w name value ts k deal)
unfolding dealt
dealt-Told w name value ts k deal f =
    if_holds (Told w) (is_zero deal.code) (λ y h. absurd (omega (arith, h)))
      (λ n. apply_directly-Told w name value (set ts k deal.twin) deal.effects (f n))

apply_value-Told :
    (w : World) (took : ℤ) (inst : DeviceInstance) (i : ℕ) (name value : Str) (ts : List Twin)
    → in_time w took ≡ true
    → Told w (apply_value w took inst i name value ts)
unfolding apply_value apply_at
apply_value-Told w took inst i name value ts e = at (match_index name i ts)
  where
    at : (k : Option ℕ) → Told w (apply_at w took inst name value ts k)
    at none = apply_directly-Told w name value ts [] refl
    at (some k) = found (get_elem? ts k)
      where
        found :
            (o : Option Twin)
            → Told w (elim o [
              | none ↦ apply_directly w name value ts []
              | some t ↦
                  dealt w name value ts k
                    (device_deal_twin_with_timeout w took inst (desire value t))
            ])
        found none = apply_directly-Told w name value ts [] refl
        found (some t) =
            dealt-Told w name value ts k
              (device_deal_twin_with_timeout w took inst (desire value t))
              (timed-all_failed w took inst (desire value t) e)

apply_property-Told :
    (w : World) (took : ℤ) (inst : DeviceInstance) (i : ℕ) (p : CloudProperty) (ts : List Twin)
    → in_time w took ≡ true
    → Told w (apply_property w took inst i p ts)
unfolding apply_property
apply_property-Told w took inst i p ts e = elim (Option-cases (wish p)) [
  | inl n ↦ rw (n, apply_property) (λ h. refl)
  | inr (v, y) ↦ rw (y, apply_property) (apply_value-Told w took inst i p.name v ts e)
]

pub apply_properties-Told :
    (w : World) (took : ℕ → ℤ) (inst : DeviceInstance) (ps : List CloudProperty) (i : ℕ)
    (ts : List Twin)
    → ((k : ℕ) → in_time w (took k) ≡ true)
    → (apply_properties w took inst ps i ts).updated
        + (apply_properties w took inst ps i ts).fallback_ok
      ≡ 0
    → all_failed w (apply_properties w took inst ps i ts).effects ≡ true
unfolding apply_properties
apply_properties-Told w took inst [] i ts e h = refl
apply_properties-Told w took inst (p ∷ ps) i ts e h =
    let one = apply_property w (took i) inst i p ts in
    rw
      (
        all-append (is_failure w) one.effects
            (apply_properties w took inst ps (suc i) one.twins).effects,
        apply_property-Told w (took i) inst i p ts (e i) (omega (arith, h)),
      )
      (apply_properties-Told w took inst ps (suc i) one.twins e (omega (arith, h)))

pub write_all-all_failed :
    (w : World) (ps : List CloudProperty)
    → (write_all w ps).0 ≡ 0
    → all_failed w (write_all w ps).1 ≡ true
unfolding write_all
write_all-all_failed w [] h = refl
write_all-all_failed w (p ∷ ps) h = elim (Option-cases (wish p)) [
  | inl n ↦ rw (n, write_all) (write_all-all_failed w ps (rw (n, write_all) at h))
  | inr (v, y) ↦ both v y (rw (y, write_all) at h) (write_all-all_failed w ps)
]
  where
    both :
        (v : Str)
        → wish p ≡ some v
        → count_if (is_zero (write_modbus_direct w p.name v).0) + (write_all w ps).0 ≡ 0
        → ((write_all w ps).0 ≡ 0 → all_failed w (write_all w ps).1 ≡ true)
        → all_failed w (write_all w (p ∷ ps)).1 ≡ true
    both v y s later =
        rw
          (
            y,
            write_all,
            all-append (is_failure w) (write_modbus_direct w p.name v).1 (write_all w ps).1,
            write_modbus_direct-all_failed w p.name v (ground arith),
          )
          (later (omega (arith, s)))
