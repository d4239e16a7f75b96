-- ===== src/Stream/Frames.antt =====
-- data/stream/stream.c, lines 203 to 412: frames of a video stream are saved as images. What FFmpeg
-- gives for each call is an input, and so is what `save_frame_to_image`, which only calls FFmpeg,
-- returns.
pub mod Ends
use mapper_framework_c.Prelude.{
  ℕ, zero, suc, ◌+◌, ◌*◌, Bool, true, false, not, ◌&&◌, ltb, leb, is_some, if◌then◌else◌, Option,
  none, some, List, [], ◌∷◌, any,
}
use mapper_framework_c.Prelude.Int.{ℤ, pos, negsuc, ltb_ℤ}
use mapper_framework_c.Common.Const.{success, failure}

-- What happens in a round of the loop.
pub data Frame : Type 0 where
  read_failed : Frame
  other_stream : Frame
  send_failed : Frame
  receive_failed : Frame
  saved : Frame
  save_failed : Frame

-- The counts behind a round: the frames that were saved, and the failures.
unfoldable pub count_frame : Frame → ℕ × ℕ → ℕ × ℕ
count_frame saved (frame_num, failure_num) = (suc frame_num, failure_num)
count_frame save_failed (frame_num, failure_num) = (frame_num, failure_num)
count_frame _ (frame_num, failure_num) = (frame_num, suc failure_num)

-- The loop: the counts at its end, `none` where the fuel is used up.
unfoldable pub frame_loop :
    (frames : ℕ → Frame) (frame_count fuel round : ℕ) → ℕ × ℕ → Option (ℕ × ℕ)
frame_loop frames frame_count zero round counts = none
frame_loop frames frame_count (suc fuel) round counts =
    let rest = frame_loop frames frame_count fuel (suc round) (count_frame (frames round) counts) in
    if ltb counts.0 frame_count && ltb counts.1 (5 * frame_count) then rest else some counts

-- What the calls before the loop give.
pub record Input : Type 0 where
  pub open_code : ℤ
  pub info_code : ℤ
  pub is_video : List Bool
  pub decoder_found : Bool
  pub context_ok : Bool
  pub parameters_code : ℤ
  pub decoder_code : ℤ
  pub frames_ok : Bool
  pub buffer_ok : Bool
  pub scaler_ok : Bool
  pub packet_ok : Bool

-- `if (ret < 0)`
abbrev then_code : ℤ → Option ℤ → Option ℤ
then_code ret rest = if ltb_ℤ ret (pos 0) then some ret else rest

abbrev then_fail : Bool → Option ℤ → Option ℤ
then_fail ok rest = if ok then rest else some failure

-- The code that the function ends with before the loop, if it does.
unfoldable pub prepare : Input → Option ℤ
prepare i = then_fail (not (ltb_ℤ i.open_code (pos 0))) (
    then_code i.info_code (
      then_fail (any (λ v. v) i.is_video) (
        then_fail i.decoder_found (
          then_fail i.context_ok (
            then_code i.parameters_code (
              then_code i.decoder_code (
                then_fail i.frames_ok (
                  then_fail i.buffer_ok (then_fail i.scaler_ok (then_fail i.packet_ok none))))))))))

unfoldable pub loop_code : (frame_count : ℕ) → ℕ × ℕ → ℤ
loop_code frame_count counts = if leb (5 * frame_count) counts.1 then failure else success

frames_of : (frames : ℕ → Frame) (fuel : ℕ) → (frame_count : ℤ) → Option ℤ
unfolding frame_loop loop_code
frames_of frames fuel (negsuc n) = some failure
frames_of frames fuel (pos n) = elim (frame_loop frames n fuel 0 (0, 0)) [
  | none ↦ none
  | some counts ↦ some (loop_code n counts)
]

-- The code; `none` where the fuel is used up. The texts are not null. A count so large that five
-- times it does not fit an `int` is not covered.
unfoldable pub stream_save_frame :
    Input → (frames : ℕ → Frame) (fuel : ℕ) → (frame_count : ℤ) → Option ℤ
unfolding frames_of
stream_save_frame i frames fuel frame_count = elim (prepare i) [
  | some code ↦ some code
  | none ↦ frames_of frames fuel frame_count
]
