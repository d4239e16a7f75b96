-- ===== src/Database/Handler.antt =====
-- The thread that reads a device and writes to a database, which data/dbmethod/redis/handler.c and
-- data/dbmethod/tdengine/handler.c have each with its client.
pub mod Runs
use mapper_framework_c.Prelude.{
  ℕ, zero, suc, Bool, true, false, Option, none, some, List, [], ◌∷◌, if◌then◌else◌, or_default,
}
use mapper_framework_c.Prelude.Int.{ℤ, pos, ltb_ℤ}
use mapper_framework_c.Prelude.CString.{Str}
use mapper_framework_c.Common.Const.{is_zero}
use mapper_framework_c.Common.DataModel.{DataModel}
use mapper_framework_c.Driver.{CustomizedClient, VisitorConfig, get_device_data}

-- What the thread uses of a client: the write in a cycle, by its number, and the close.
pub record Sink : Type 1 where
  pub Client : Type 0
  pub add_data : ℕ → Client → DataModel → ℤ
  pub close : Client → Client

-- The arguments of the thread.
pub record HandlerArgs (sink : Sink) : Type 0 where
  pub db : sink.Client
  pub data_model : DataModel
  pub report_cycle_ms : ℤ
  pub customized_client : Option CustomizedClient
  pub visitor_config : Option VisitorConfig

-- What the thread leaves: the rows that it gave to the client, in order, and the client.
pub record HandlerRun (sink : Sink) : Type 0 where
  pub rows : List DataModel
  pub db : sink.Client

-- `reportCycleMs > 0 ? reportCycleMs : 1000`
abbrev pub cycle_or_default : ℤ → ℤ
cycle_or_default ms = if ltb_ℤ (pos 0) ms then ms else pos 1000

abbrev pub with_row : DataModel → Option (List DataModel) → Option (List DataModel)
with_row row none = none
with_row row (some rows) = some (row ∷ rows)

module _ (sink : Sink) (running : ℕ → Bool) (time : ℕ → ℤ) where
  -- The data model with what was read, and the time of the cycle.
  unfoldable pub read_model : HandlerArgs sink → ℕ → DataModel → DataModel
  read_model args n dm =
      let read = (get_device_data args.customized_client args.visitor_config).1 in
      record dm { value = elim read [ none ↦ dm.value | some v ↦ some v ]; time_stamp = time n }

  -- The rows from the cycle numbered `n` on; `none` where the fuel is used up. `running` is the flag
  -- as each cycle finds it.
  unfoldable pub handler_loop :
      HandlerArgs sink → (fuel n : ℕ) → DataModel → Option (List DataModel)
  handler_loop args zero n dm = none
  handler_loop args (suc fuel) n dm =
      let row = read_model args n dm in
      let skipped = handler_loop args fuel (suc n) dm in
      let rest = handler_loop args fuel (suc n) row in
      if running n
      then if is_zero (get_device_data args.customized_client args.visitor_config).0
        then if is_zero (sink.add_data n args.db row) then with_row row rest else some (row ∷ [])
        else skipped
      else some []

  unfoldable pub data_handler_thread : HandlerArgs sink → (fuel : ℕ) → Option (HandlerRun sink)
  data_handler_thread args fuel = elim (handler_loop args fuel 0 args.data_model) [
    | none ↦ none
    | some rows ↦ some (record { rows = rows; db = sink.close args.db })
  ]
