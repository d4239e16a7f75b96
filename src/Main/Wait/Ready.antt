-- ===== src/Main/Wait/Ready.antt =====
-- The wait for the socket ends, at the first poll that finds it or after the time.
use mapper_framework_c.Prelude.{
  ℕ, zero, suc, ◌+◌, ◌*◌, ◌≤◌, ◌<◌, ◌≡◌, refl, sym, Bool, true, false, ltb, Option, some, ◌⊎◌, inl,
  inr, arith, if_holds,
}
use mapper_framework_c.Prelude.Int.{ℤ}
use mapper_framework_c.Common.Const.{success, failure}
use mapper_framework_c.Main.Wait.{wait_loop, wait_uds_ready}

-- A wait from the poll numbered `from` on: the poll before the last one counted found the socket and
-- none before did, or none did in the time.
pub record Waited (stat_ok : ℕ → Bool) (timeout_ms from : ℕ) (code : ℤ) (polls : ℕ) : Type 0 where
  pub outcome :
      ((last : ℕ) × (code ≡ success)
        × (polls ≡ suc last)
        × (from ≤ last)
        × (stat_ok last ≡ true)
        × (last * 100 < timeout_ms))
      ⊎ ((code ≡ failure) × (timeout_ms ≤ polls * 100))
  pub unseen : (k : ℕ) → from ≤ k → k + 1 < polls → stat_ok k ≡ false
  pub unseen_last : code ≡ failure → (k : ℕ) → from ≤ k → k < polls → stat_ok k ≡ false

-- What a wait gives.
pub record Ends (stat_ok : ℕ → Bool) (timeout_ms from : ℕ) (o : Option (ℤ × ℕ)) : Type 0 where
  pub code : ℤ
  pub polls : ℕ
  pub result : o ≡ some (code, polls)
  pub waited : Waited stat_ok timeout_ms from code polls

found :
    (stat_ok : ℕ → Bool) (timeout_ms n : ℕ)
    → stat_ok n ≡ true
    → n * 100 < timeout_ms
    → Ends stat_ok timeout_ms n (some (success, suc n))
found stat_ok timeout_ms n y l = record {
  code = success;
  polls = suc n;
  result = refl;
  waited = record {
    outcome = inl (n, refl, refl, omega arith, y, l);
    unseen = λ k h h'. absurd (omega arith);
    unseen_last = λ e. absurd cc;
  };
}

given_up :
    (stat_ok : ℕ → Bool) (timeout_ms n : ℕ)
    → timeout_ms ≤ n * 100
    → Ends stat_ok timeout_ms n (some (failure, n))
given_up stat_ok timeout_ms n l = record {
  code = failure;
  polls = n;
  result = refl;
  waited = record {
    outcome = inr (refl, l);
    unseen = λ k h h'. absurd (omega arith);
    unseen_last = λ e k h h'. absurd (omega arith);
  };
}

here-or-later : (n k : ℕ) → n ≤ k → (n ≡ k) ⊎ (suc n ≤ k)
here-or-later n k h = ground arith

earlier :
    (stat_ok : ℕ → Bool) (timeout_ms n : ℕ) (o : Option (ℤ × ℕ))
    → stat_ok n ≡ false
    → Ends stat_ok timeout_ms (suc n) o
    → Ends stat_ok timeout_ms n o
earlier stat_ok timeout_ms n o u e = record {
  code = e.code;
  polls = e.polls;
  result = e.result;
  waited = record {
    outcome = elim e.waited.outcome [
      | inl (m, c, p, f, y, l) ↦ inl (m, c, p, omega arith, y, l)
      | inr z ↦ inr z
    ];
    unseen = λ k h h'. elim (here-or-later n k h) [
      | inl q ↦ rw (sym q) u
      | inr q ↦ e.waited.unseen k q h'
    ];
    unseen_last = λ c k h h'. elim (here-or-later n k h) [
      | inl q ↦ rw (sym q) u
      | inr q ↦ e.waited.unseen_last c k q h'
    ];
  };
}

wait_loop-Ends :
    (stat_ok : ℕ → Bool) (timeout_ms fuel waited polls : ℕ)
    → 0 < fuel
    → waited ≡ polls * 100
    → timeout_ms < polls * 100 + fuel
    → Ends stat_ok timeout_ms polls (wait_loop stat_ok timeout_ms fuel waited polls)
unfolding wait_loop
wait_loop-Ends stat_ok timeout_ms zero waited polls z w h = absurd (omega arith)
wait_loop-Ends stat_ok timeout_ms (suc fuel) waited polls f w h =
    if_holds (Ends stat_ok timeout_ms polls) (ltb waited timeout_ms)
      (λ y.
        if_holds (Ends stat_ok timeout_ms polls) (stat_ok polls)
          (λ z. found stat_ok timeout_ms polls z (ground arith))
          (λ z. earlier stat_ok timeout_ms polls _ z (
            wait_loop-Ends stat_ok timeout_ms fuel (waited + 100) (suc polls) (ground arith)
              (omega arith) (omega arith))))
      (λ y. given_up stat_ok timeout_ms polls (ground arith))

-- The wait for the socket always ends: with 0 at the first poll that finds the socket, which is made
-- in the time, or with -1 when the time is over and no poll has found it.
pub wait_uds_ready-Ends :
    (stat_ok : ℕ → Bool) (timeout_ms : ℕ)
    → Ends stat_ok timeout_ms 0 (wait_uds_ready stat_ok timeout_ms)
unfolding wait_uds_ready
wait_uds_ready-Ends stat_ok timeout_ms =
    wait_loop-Ends stat_ok timeout_ms (suc timeout_ms) 0 0 (omega arith) (omega arith) (omega arith)
