-- ===== src/Tests/Streams.antt =====
-- Witnesses of what holds for the streams.
use mapper_framework_c.Prelude.{
  ◌≡◌, ◌≢◌, refl, ℕ, zero, suc, ◌+◌, true, false, none, some, List, [], ◌∷◌, arith,
}
use mapper_framework_c.Prelude.Int.{pos}
use mapper_framework_c.Stream.Frames.{Frame, saved, read_failed, save_failed, frame_loop}
use mapper_framework_c.Stream.Frames.Ends.{Ended, frame_loop-Ended, frame_loop-endless}
use mapper_framework_c.Stream.Videos.{Stream, mapped, map_streams}
use mapper_framework_c.Stream.Videos.Copied.{kept_before, map_streams-number}

-- The first read fails.
abbrev flickering : ℕ → Frame
flickering zero = read_failed
flickering (suc i) = saved

no_failed_save : (i : ℕ) → flickering i ≢ save_failed
no_failed_save zero e = cc e
no_failed_save (suc i) e = cc e

frame_loop-Ended_example : Ended 2 (frame_loop flickering 2 13 0 (0, 0))
frame_loop-Ended_example = frame_loop-Ended flickering 2 13 no_failed_save (omega arith)

frame_loop-endless_example : frame_loop (λ k. save_failed) 2 1000 0 (0, 0) ≡ none
frame_loop-endless_example =
    frame_loop-endless (λ k. save_failed) 2 1000 0 (λ i. refl) (omega arith)

abbrev video : Stream
video = record { is_kept = true; new_ok = true; copy_code = pos 0 }

abbrev other : Stream
other = record { is_kept = false; new_ok = true; copy_code = pos 0 }

abbrev three : List Stream
three = video ∷ other ∷ video ∷ []

three_mapped : map_streams (pos 0) 0 three ≡ mapped (some 0 ∷ none ∷ some 1 ∷ [])
unfolding map_streams
three_mapped = refl

map_streams-number_example : 1 ≡ 0 + kept_before 2 three
map_streams-number_example = map_streams-number (pos 0) 0 three 2 three_mapped refl
