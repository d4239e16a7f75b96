-- ===== src/Recorder/Names.antt =====
-- The names that reach the database are safe to stand between back quotes, and stable.
use mapper_framework_c.Prelude.{
  ℕ, zero, suc, ◌-◌, ◌<◌, ◌≤◌, ◌≡◌, ◌≢◌, refl, true, Option, none, some, [], ◌∷◌, arith, length,
  all, all-take,
}
use mapper_framework_c.Prelude.CString.{Str, snprintf, length-snprintf-lt}
use mapper_framework_c.Recorder.{is_id_char, id_char, id_loop, or_fallback, sanitize_id}

is_id_char-id_char : (c : ℕ) → is_id_char (id_char c) ≡ true
unfolding id_char is_id_char
is_id_char-id_char c = ground arith

id_char_id : (c : ℕ) → is_id_char c ≡ true → id_char c ≡ c
unfolding id_char is_id_char
id_char_id c h = ground arith

all-id_loop : (room : ℕ) (s : Str) → all is_id_char (id_loop room s) ≡ true
unfolding id_loop
all-id_loop room [] = refl
all-id_loop zero (c ∷ s) = refl
all-id_loop (suc room) (c ∷ s) = ground (arith, is_id_char-id_char c, all-id_loop room s)

length-id_loop-le : (room : ℕ) (s : Str) → length (id_loop room s) ≤ room
unfolding id_loop
length-id_loop-le room [] = omega arith
length-id_loop-le zero (c ∷ s) = omega arith
length-id_loop-le (suc room) (c ∷ s) = omega (arith, length-id_loop-le room s)

id_loop_id : (room : ℕ) (s : Str) → all is_id_char s ≡ true → length s ≤ room → id_loop room s ≡ s
unfolding id_loop
id_loop_id room [] h l = refl
id_loop_id zero (c ∷ s) h l = absurd (omega arith)
id_loop_id (suc room) (c ∷ s) h l = ground (arith, id_char_id c, id_loop_id room s)

-- What a name is after `sanitize_id`.
pub record IsId (outsz : ℕ) (s : Str) : Type 0 where
  pub filled : s ≢ []
  pub fits : length s < outsz
  pub clean : all is_id_char s ≡ true

snprintf-IsId :
    (outsz : ℕ) (s : Str)
    → 1 < outsz
    → s ≢ []
    → all is_id_char s ≡ true
    → IsId outsz (snprintf outsz s)
snprintf-IsId outsz [] h ne a = absurd (ne refl)
snprintf-IsId outsz (c ∷ s) h ne a = record {
  filled = let e : outsz - 1 ≡ suc (outsz - 2) = omega arith in rw e (cc);
  fits = length-snprintf-lt outsz (c ∷ s) (omega arith);
  clean = all-take is_id_char (outsz - 1) (c ∷ s) a;
}

or_fallback-IsId :
    (outsz : ℕ) (fallback t : Str)
    → length t < outsz
    → all is_id_char t ≡ true
    → IsId outsz (snprintf outsz fallback)
    → IsId outsz (or_fallback outsz fallback t)
or_fallback-IsId outsz fallback [] l a h = h
or_fallback-IsId outsz fallback (c ∷ t) l a h = record { filled = cc; fits = l; clean = a }

-- Every name becomes a text that is not empty, fits the buffer with its zero and has only
-- identifier characters, if the buffer has two bytes and the fallback is such a text.
pub sanitize_id-IsId :
    (name : Option Str) (outsz : ℕ) (fallback : Str)
    → 1 < outsz
    → fallback ≢ []
    → all is_id_char fallback ≡ true
    → IsId outsz (sanitize_id name outsz fallback)
unfolding sanitize_id
sanitize_id-IsId none outsz fallback h ne a = snprintf-IsId outsz fallback h ne a
sanitize_id-IsId (some []) outsz fallback h ne a = snprintf-IsId outsz fallback h ne a
sanitize_id-IsId (some (c ∷ s)) outsz fallback h ne a =
    or_fallback-IsId outsz fallback (id_loop (outsz - 1) (c ∷ s))
      (omega (arith, length-id_loop-le (outsz - 1) (c ∷ s))) (all-id_loop (outsz - 1) (c ∷ s))
      (snprintf-IsId outsz fallback h ne a)

IsId-id : (outsz : ℕ) (fallback s : Str) → IsId outsz s → sanitize_id (some s) outsz fallback ≡ s
unfolding sanitize_id
IsId-id outsz fallback [] h = absurd (h.filled refl)
IsId-id outsz fallback (c ∷ s) h =
    rw (id_loop_id (outsz - 1) (c ∷ s) h.clean (omega (arith, h.fits)))

-- Cleaning a second time, with any fallback, changes nothing.
pub sanitize_id_idem :
    (name : Option Str) (outsz : ℕ) (fallback other : Str)
    → 1 < outsz
    → fallback ≢ []
    → all is_id_char fallback ≡ true
    → sanitize_id (some (sanitize_id name outsz fallback)) outsz other
      ≡ sanitize_id name outsz fallback
sanitize_id_idem name outsz fallback other h ne a =
    IsId-id outsz other _ (sanitize_id-IsId name outsz fallback h ne a)
