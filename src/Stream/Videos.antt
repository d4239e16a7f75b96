-- ===== src/Stream/Videos.antt =====
-- data/stream/stream.c, lines 415 to 603: segments of a stream are copied to files. What FFmpeg
-- gives for each call is an input.
pub mod Copied
use mapper_framework_c.Prelude.{
  ℕ, zero, suc, ◌+◌, Bool, true, false, ltb, if◌then◌else◌, Option, none, some, List, [], ◌∷◌,
  get_elem?,
}
use mapper_framework_c.Prelude.Int.{ℤ, pos, negsuc, ltb_ℤ}
use mapper_framework_c.Common.Const.{success, failure}

-- A stream of the input, for a segment: whether it is one of video, audio or subtitles, and what
-- the calls give that make its copy.
pub record Stream : Type 0 where
  pub is_kept : Bool
  pub new_ok : Bool
  pub copy_code : ℤ

-- What `av_read_frame` and then `av_interleaved_write_frame` give.
pub data Packet : Type 0 where
  read_failed : Packet
  packet : (stream_index : ℕ) (write_code : ℤ) → Packet

-- What the calls for a segment give; `is_no_file` is the flag AVFMT_NOFILE.
pub record Segment : Type 0 where
  pub file_ok : Bool
  pub context_code : ℤ
  pub streams : List Stream
  pub is_no_file : Bool
  pub open_code : ℤ
  pub header_code : ℤ
  pub packets : ℕ → Packet

-- `AVERROR(ENOMEM)`
abbrev pub no_memory : ℤ
no_memory = negsuc 11

-- The streams of the output by those of the input, or the code that the loop ends with.
pub data Mapping : Type 0 where
  refused : ℤ → Mapping
  mapped : List (Option ℕ) → Mapping

abbrev pub before : Option ℕ → Mapping → Mapping
before o (refused code) = refused code
before o (mapped rest) = mapped (o ∷ rest)

-- `next` is the number of the next stream of the output.
unfoldable pub map_streams : (error_unknown : ℤ) → (next : ℕ) → List Stream → Mapping
map_streams error_unknown next [] = mapped []
map_streams error_unknown next (s ∷ ss) =
    let skipped = map_streams error_unknown next ss in
    let taken = map_streams error_unknown (suc next) ss in
    if s.is_kept
    then if s.new_ok
      then if ltb_ℤ s.copy_code (pos 0) then refused s.copy_code else before (some next) taken
      else refused error_unknown
    else before none skipped

-- `stream_index >= stream_mapping_size || stream_mapping[stream_index] < 0`, the other way round.
unfoldable pub is_mapped : List (Option ℕ) → ℕ → Bool
is_mapped mapping i = elim (get_elem? mapping i) [
  | none ↦ false
  | some o ↦ elim o [ none ↦ false | some k ↦ true ]
]

-- Whether the packet is written.
unfoldable pub is_written : List (Option ℕ) → ℕ → ℤ → Bool
is_written mapping i code =
    if is_mapped mapping i then if ltb_ℤ code (pos 0) then false else true else false

-- The loop over the packets: how many are written, and how many were read over all segments; `none`
-- where the fuel is used up.
unfoldable pub copy_packets :
    List (Option ℕ) → (packets : ℕ → Packet) (frame_count fuel round written : ℕ) → Option ℕ
copy_packets mapping packets frame_count zero round written = none
copy_packets mapping packets frame_count (suc fuel) round written =
    let skipped = copy_packets mapping packets frame_count fuel (suc round) written in
    let counted = copy_packets mapping packets frame_count fuel (suc round) (suc written) in
    if ltb written frame_count
    then elim (packets round) [
      | read_failed ↦ some written
      | packet i code ↦ if is_written mapping i code then counted else skipped
    ]
    else some written

-- What a segment ends with: the code of the function, or the number of packets that were written.
pub data Copy : Type 0 where
  stopped : ℤ → Copy
  copied : ℕ → Copy
  endless : Copy

copy_of : Option ℕ → Copy
copy_of none = endless
copy_of (some n) = copied n

write_segment : (frame_count fuel : ℕ) → Segment → List (Option ℕ) → Copy
unfolding copy_packets copy_of
write_segment frame_count fuel s mapping =
    if ltb_ℤ s.header_code (pos 0)
    then stopped s.header_code
    else copy_of (copy_packets mapping s.packets frame_count fuel 0 0)

open_segment : (frame_count fuel : ℕ) → Segment → Mapping → Copy
unfolding write_segment
open_segment frame_count fuel s (refused code) = stopped code
open_segment frame_count fuel s (mapped mapping) =
    let written = write_segment frame_count fuel s mapping in
    if s.is_no_file
    then written
    else if ltb_ℤ s.open_code (pos 0)
    then stopped s.open_code
    else written

unfoldable pub save_segment : (error_unknown : ℤ) → (frame_count fuel : ℕ) → Segment → Copy
unfolding open_segment map_streams
save_segment error_unknown frame_count fuel s =
    if s.file_ok
    then if ltb_ℤ s.context_code (pos 0)
      then stopped s.context_code
      else open_segment frame_count fuel s (map_streams error_unknown 0 s.streams)
    else stopped no_memory

-- The loop over the segments, of which `n` are left; `none` where the fuel of one is used up.
unfoldable pub save_segments :
    (error_unknown : ℤ)
    → (frame_count fuel : ℕ) → (n : ℕ) → (segments : ℕ → Segment) (idx : ℕ) → Option ℤ
save_segments error_unknown frame_count fuel zero segments idx = some success
save_segments error_unknown frame_count fuel (suc n) segments idx =
    let rest = save_segments error_unknown frame_count fuel n segments (suc idx) in
    elim (save_segment error_unknown frame_count fuel (segments idx)) [
      | stopped code ↦ some code
      | copied k ↦ rest
      | endless ↦ none
    ]

-- What the calls before the loop give.
pub record Input : Type 0 where
  pub open_code : ℤ
  pub info_code : ℤ
  pub mapping_ok : Bool
  pub packet_ok : Bool
  pub error_unknown : ℤ

-- The code; the texts are not null, and the counts not negative, for which the loops do nothing.
unfoldable pub stream_save_video :
    Input → (frame_count video_num fuel : ℕ) → (segments : ℕ → Segment) → Option ℤ
stream_save_video i frame_count video_num fuel segments =
    if ltb_ℤ i.open_code (pos 0)
    then some failure
    else if ltb_ℤ i.info_code (pos 0)
    then some i.info_code
    else if i.mapping_ok
    then if i.packet_ok
      then save_segments i.error_unknown frame_count fuel video_num segments 0
      else some no_memory
    else some no_memory
