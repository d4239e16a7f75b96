-- ===== src/Stream/Frames/Ends.antt =====
-- When the loop over the frames ends.
use mapper_framework_c.Prelude.{
  ◌≡◌, ◌≢◌, ◌⊎◌, refl, ap, lt→ltb, ℕ, zero, suc, ◌+◌, ◌*◌, ◌≤◌, ◌<◌, true, ◌&&◌, ltb, Bool-cases,
  ltb→lt, inl, inr, Option, none, some, arith,
}
use mapper_framework_c.Common.Const.{success, failure}
use mapper_framework_c.Stream.Frames.{
  Frame, read_failed, other_stream, send_failed, receive_failed, saved, save_failed, count_frame,
  frame_loop, loop_code,
}

-- How the loop ends: all frames are there and the code is 0, or the failures have reached the limit
-- and the code is -1.
pub data Ended (frame_count : ℕ) (result : Option (ℕ × ℕ)) : Type 0 where
  complete :
      (failures : ℕ)
      → result ≡ some (frame_count, failures)
      → failures < 5 * frame_count
      → loop_code frame_count (frame_count, failures) ≡ success
      → Ended frame_count result
  given_up :
      (frames : ℕ)
      → result ≡ some (frames, 5 * frame_count)
      → frames ≤ frame_count
      → loop_code frame_count (frames, 5 * frame_count) ≡ failure
      → Ended frame_count result

-- A round that is not a failed save raises the sum of the counts by one.
count_frame-sum :
    (f : Frame) (n k : ℕ)
    → f ≢ save_failed
    → ((count_frame f (n, k) ≡ (suc n, k)) ⊎ (count_frame f (n, k) ≡ (n, suc k)))
unfolding count_frame
count_frame-sum read_failed n k h = inr refl
count_frame-sum other_stream n k h = inr refl
count_frame-sum send_failed n k h = inr refl
count_frame-sum receive_failed n k h = inr refl
count_frame-sum saved n k h = inl refl
count_frame-sum save_failed n k h = absurd (h refl)

loop_ends :
    (frames : ℕ → Frame) (c fuel round n k : ℕ)
    → ((i : ℕ) → frames i ≢ save_failed)
    → n ≤ c
    → k ≤ 5 * c
    → 6 * c < fuel + (n + k)
    → Ended c (frame_loop frames c fuel round (n, k))
unfolding frame_loop loop_code
loop_ends frames c zero round n k s a b e = absurd (omega arith)
loop_ends frames c (suc fuel) round n k s a b e = elim (Bool-cases (ltb n c && ltb k (5 * c))) [
  | inl y ↦ rw y (elim (count_frame-sum (frames round) n k (s round)) [
    | inl f ↦ rw f (loop_ends frames c fuel (suc round) (suc n) k s (ground arith) b (omega arith))
    | inr f ↦ rw f (loop_ends frames c fuel (suc round) n (suc k) s a (ground arith) (omega arith))
  ])
  | inr z ↦ rw z (elim (Bool-cases (ltb k (5 * c))) [
    | inl t ↦ full t (ground arith)
    | inr t ↦ tired (ground arith)
  ])
]
  where
    full : ltb k (5 * c) ≡ true → n ≡ c → Ended c (some (n, k))
    full t q = complete k (ap (λ (x : ℕ). some (x, k)) q) (ltb→lt k (5 * c) t) (ground arith)

    tired : k ≡ 5 * c → Ended c (some (n, k))
    tired q = given_up n (ap (λ (x : ℕ). some (n, x)) q) a (ground arith)

-- If no image fails to be saved, the loop ends after at most six rounds for each frame, and one
-- test more: with all frames saved and code 0, or with five failures for each frame and code -1.
pub frame_loop-Ended :
    (frames : ℕ → Frame) (frame_count fuel : ℕ)
    → ((i : ℕ) → frames i ≢ save_failed)
    → 6 * frame_count < fuel
    → Ended frame_count (frame_loop frames frame_count fuel 0 (0, 0))
frame_loop-Ended frames frame_count fuel s h =
    loop_ends frames frame_count fuel 0 0 0 s (omega arith) (omega arith) (omega arith)

-- If every image fails to be saved, the loop for one frame or more never ends, however many rounds
-- it is given.
pub frame_loop-endless :
    (frames : ℕ → Frame) (frame_count fuel round : ℕ)
    → ((i : ℕ) → frames i ≡ save_failed)
    → 0 < frame_count
    → frame_loop frames frame_count fuel round (0, 0) ≡ none
unfolding frame_loop count_frame
frame_loop-endless frames c zero round s h = refl
frame_loop-endless frames c (suc fuel) round s h =
    rw (s round, lt→ltb 0 c h, lt→ltb 0 (5 * c) (omega arith))
      (frame_loop-endless frames c fuel (suc round) s h)
