-- ===== src/Stream.antt =====
-- data/stream/stream.c: the configuration of a stream, the names of its files, and the handler that
-- saves frames or videos.
pub mod Frames
pub mod Videos
use mapper_framework_c.Prelude.{
  ℕ, zero, suc, ◌-◌, Bool, length, if◌then◌else◌, Option, none, some, List, [], ◌∷◌, ◌++◌,
}
use mapper_framework_c.Prelude.Int.{ℤ, pos}
use mapper_framework_c.Prelude.CString.{Str, codes, str_eq, snprintf, print_int, decimal}
use mapper_framework_c.Common.Const.{failure, is_zero}
use mapper_framework_c.Common.Cjson.{CjsonReader, Item}
use mapper_framework_c.Common.ConfigMapType.{Twin}
use mapper_framework_c.Common.Outcome.{Outcome, done, ◌>>=◌}
use mapper_framework_c.Driver.{CustomizedClient, VisitorConfig, get_device_data}
use mapper_framework_c.Publish.Fields.{text_field, int_field}

pub record StreamConfig : Type 0 where
  pub format : Str
  pub output_dir : Str
  pub frame_count : ℤ
  pub frame_interval : ℤ
  pub video_num : ℤ

-- `none` is the code -1.
unfoldable pub stream_parse_config :
    CjsonReader → (json : Option Str) → Outcome (Option StreamConfig)
stream_parse_config r none = done none
stream_parse_config r (some json) = elim (r.parse json) [
  | none ↦ done none
  | some root ↦ do
    format ← text_field (r.get_object_item root (codes "format")) (codes "jpg")
    output_dir ← text_field (r.get_object_item root (codes "outputDir")) (codes "./output")
    done (
        some (record {
          format = format;
          output_dir = output_dir;
          frame_count = int_field (r.get_object_item root (codes "frameCount")) (pos 10);
          frame_interval =
              int_field (r.get_object_item root (codes "frameInterval")) (pos 1000000000);
          video_num = int_field (r.get_object_item root (codes "videoNum")) (pos 1);
        }))
]

-- `%09ld` for a number below 10 ^ 9.
unfoldable pub nine_digits : ℕ → Str
nine_digits n = pad 9 (decimal n)
  where
    zeros : ℕ → Str
    zeros zero = []
    zeros (suc k) = b'0' ∷ zeros k

    pad : ℕ → Str → Str
    pad width s = zeros (width - length s) ++ s

-- `seconds` and `nanoseconds` are those of the clock. `none` is a null pointer.
unfoldable pub stream_gen_filename :
    (alloc_ok : Bool) (seconds nanoseconds : ℕ) → (dir format : Option Str) → Option Str
stream_gen_filename alloc_ok seconds nanoseconds (some dir) (some format) =
    if alloc_ok
    then some (
        snprintf 512
          (dir ++ (codes "/f" ++ (decimal seconds ++ (nine_digits nanoseconds ++ b'.' ∷ format)))))
    else none
stream_gen_filename alloc_ok seconds nanoseconds _ _ = none

-- What the handler asks for.
pub data Job : Type 0 where
  save_frame : (uri output_dir format : Str) (frame_count frame_interval : ℤ) → Job
  save_video : (uri output_dir format : Str) (frame_count video_num : ℤ) → Job

unfoldable pub job_for : (name uri : Str) → StreamConfig → Option Job
job_for name uri c =
    if str_eq name (codes "SaveFrame")
    then some (save_frame uri c.output_dir c.format c.frame_count c.frame_interval)
    else if str_eq name (codes "SaveVideo")
    then some (save_video uri c.output_dir c.format c.frame_count c.video_num)
    else none

do_job : (Job → ℤ) → Option Job → ℤ
do_job run none = failure
do_job run (some job) = run job

configured : (Job → ℤ) → (name uri : Str) → Option StreamConfig → ℤ
unfolding do_job
configured run name uri none = failure
configured run name uri (some c) = do_job run (job_for name uri c)

with_data : CjsonReader → (Job → ℤ) → (name : Str) → VisitorConfig → ℤ × Option Str → Outcome ℤ
unfolding configured
with_data r run name v (ret, none) = done failure
with_data r run name v (ret, some uri) =
    if is_zero ret
    then stream_parse_config r v.config_data >>= (λ c. done (configured run name uri c))
    else done failure

handle_named :
    CjsonReader
    → (Job → ℤ)
    → Option Str
    → Option CustomizedClient
    → Option VisitorConfig
    → Outcome ℤ
unfolding with_data
handle_named r run (some name) (some client) (some v) =
    with_data r run name v (get_device_data (some client) (some v))
handle_named r run _ _ _ = done failure

-- `run` is the code of `stream_save_frame` or `stream_save_video`.
unfoldable pub stream_handler :
    CjsonReader
    → (run : Job → ℤ) → Option Twin
    → Option CustomizedClient
    → Option VisitorConfig
    → Outcome ℤ
unfolding handle_named
stream_handler r run none client visitor = done failure
stream_handler r run (some t) client visitor = handle_named r run t.property_name client visitor

-- The handler of a build without ENABLE_STREAM.
unfoldable pub stream_handler_no_support :
    Option Twin → Option CustomizedClient → Option VisitorConfig → ℤ
stream_handler_no_support twin client visitor = failure
