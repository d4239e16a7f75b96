-- ===== src/Database/Handler/Runs.antt =====
-- The thread as it is started: with a client, a visitor and the flag set, which nothing resets. It
-- ends where a write fails, and what it has written by then.
use mapper_framework_c.Prelude.{
  ℕ, zero, suc, ◌+◌, ◌<◌, ◌≡◌, refl, ap, ◌∙◌, subst, Bool, true, false, Option, none, some, List,
  [], ◌∷◌, arith,
}
use mapper_framework_c.Prelude.Int.{ℤ}
use mapper_framework_c.Prelude.CString.{Str, codes}
use mapper_framework_c.Common.Const.{is_zero}
use mapper_framework_c.Common.DataModel.{DataModel}
use mapper_framework_c.Driver.{CustomizedClient, VisitorConfig, get_device_data}
use mapper_framework_c.Database.Handler.{
  Sink, HandlerArgs, read_model, with_row, handler_loop, data_handler_thread,
}

module _ (sink : Sink) (time : ℕ → ℤ) (db : sink.Client) (dm : DataModel) (ms : ℤ)
    (c : CustomizedClient) (v : VisitorConfig) where
  -- The arguments that a start makes.
  abbrev pub started_args : HandlerArgs sink
  started_args = record {
    db = db;
    data_model = dm;
    report_cycle_ms = ms;
    customized_client = some c;
    visitor_config = some v;
  }

  -- The row of a cycle: the names and the type that the caller gave, the value of the sample driver,
  -- and the time of the cycle.
  abbrev pub row_at : ℕ → DataModel
  row_at n = record dm { value = some (codes "sample_device_data_value"); time_stamp = time n }

  -- The rows of `k` cycles and one more, from the cycle numbered `n` on.
  abbrev pub rows_from : (n k : ℕ) → List DataModel
  rows_from n zero = row_at n ∷ []
  rows_from n (suc k) = row_at n ∷ rows_from (suc n) k

  abbrev accepts : ℕ → Bool
  accepts n = is_zero (sink.add_data n db (row_at n))

  -- The model that a cycle finds: the value and the time are those of an earlier cycle.
  abbrev found : Option Str → ℤ → DataModel
  found value at = record dm { value = value; time_stamp = at }

  reads :
      (running : ℕ → Bool) (n : ℕ) (value : Option Str) (at : ℤ)
      → read_model sink running time started_args n (found value at) ≡ row_at n
  unfolding read_model get_device_data
  reads running n value at = refl

  -- A cycle that is not the last.
  goes_on :
      (running : ℕ → Bool) (fuel n : ℕ) (value : Option Str) (at : ℤ)
      → running n ≡ true
      → accepts n ≡ true
      → handler_loop sink running time started_args (suc fuel) n (found value at)
        ≡ with_row (row_at n) (handler_loop sink running time started_args fuel (suc n) (row_at n))
  unfolding handler_loop get_device_data
  goes_on running fuel n value at r a = rw (r, reads running n value at, a) refl

  is_refused :
      (running : ℕ → Bool) (fuel n : ℕ) (value : Option Str) (at : ℤ)
      → running n ≡ true
      → accepts n ≡ false
      → handler_loop sink running time started_args (suc fuel) n (found value at)
        ≡ some (row_at n ∷ [])
  unfolding handler_loop get_device_data
  is_refused running fuel n value at r a = rw (r, reads running n value at, a) refl

  loop_ends :
      (running : ℕ → Bool) (fuel k n : ℕ) (value : Option Str) (at : ℤ)
      → ((i : ℕ) → running i ≡ true)
      → ((i : ℕ) → i < k → accepts (n + i) ≡ true)
      → accepts (n + k) ≡ false
      → k < fuel
      → handler_loop sink running time started_args fuel n (found value at) ≡ some (rows_from n k)
  loop_ends running zero k n value at r a f l = absurd (omega arith)
  loop_ends running (suc fuel) zero n value at r a f l =
      is_refused running fuel n value at (r n) (subst (λ i. accepts i ≡ false) (omega arith) f)
  loop_ends running (suc fuel) (suc k) n value at r a f l =
      goes_on running fuel n value at (r n)
        (subst (λ i. accepts i ≡ true) (omega arith) (a 0 (omega arith)))
      ∙ ap (with_row (row_at n)) (
          loop_ends running fuel k (suc n) (some (codes "sample_device_data_value")) (time n) r
            (λ i b. subst (λ j. accepts j ≡ true) (omega arith) (a (suc i) (omega arith)))
            (subst (λ j. accepts j ≡ false) (omega arith) f) (omega arith))

  -- A thread whose flag nothing resets, as no caller can, runs until the client refuses a row. If
  -- that is first in the cycle numbered `k`, the thread ends in that cycle, and then it has given the
  -- client one row for each cycle up to that one, in order, each with the value that was read and
  -- the time of its cycle, and it closes the client.
  pub data_handler_thread-ends :
      (running : ℕ → Bool) (fuel k : ℕ)
      → ((i : ℕ) → running i ≡ true)
      → ((i : ℕ) → i < k → is_zero (sink.add_data i db (row_at i)) ≡ true)
      → is_zero (sink.add_data k db (row_at k)) ≡ false
      → k < fuel
      → data_handler_thread sink running time started_args fuel
        ≡ some (record { rows = rows_from 0 k; db = sink.close db })
  unfolding data_handler_thread
  data_handler_thread-ends running fuel k r a f l =
      rw
        (
          loop_ends running fuel k 0 dm.value dm.time_stamp r
              (λ i b. subst (λ j. accepts j ≡ true) (omega arith) (a i b))
              (subst (λ j. accepts j ≡ false) (omega arith) f) l,
          data_handler_thread,
        )
        refl

  -- If the client takes every row, the thread never ends, however many cycles it is given.
  pub data_handler_thread-endless :
      (running : ℕ → Bool) (fuel : ℕ)
      → ((i : ℕ) → running i ≡ true)
      → ((i : ℕ) → is_zero (sink.add_data i db (row_at i)) ≡ true)
      → data_handler_thread sink running time started_args fuel ≡ none
  unfolding data_handler_thread
  data_handler_thread-endless running fuel r a =
      rw (goes fuel 0 dm.value dm.time_stamp, data_handler_thread) refl
    where
      goes :
          (fuel n : ℕ) (value : Option Str) (at : ℤ)
          → handler_loop sink running time started_args fuel n (found value at) ≡ none
      goes zero n value at = unfold handler_loop in refl
      goes (suc fuel) n value at =
          goes_on running fuel n value at (r n) (a n)
          ∙ ap (with_row (row_at n))
              (goes fuel (suc n) (some (codes "sample_device_data_value")) (time n))
