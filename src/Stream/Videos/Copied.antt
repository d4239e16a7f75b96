-- ===== src/Stream/Videos/Copied.antt =====
-- How many packets a segment has, and what the code tells of them.
use mapper_framework_c.Prelude.{
  ◌≡◌, refl, subst, ℕ, zero, suc, ◌+◌, ◌≤◌, ◌<◌, true, false, Bool-cases, inl, inr, if◌then◌else◌,
  Option, none, some, List, [], ◌∷◌, arith, get_elem?,
}
use mapper_framework_c.Prelude.Int.{ℤ}
use mapper_framework_c.Stream.Videos.{
  Packet, packet, is_written, copy_packets, Stream, Mapping, refused, mapped, map_streams, before,
}

-- A segment never has more packets than it should.
pub copy_packets-le :
    (mapping : List (Option ℕ)) (packets : ℕ → Packet) (frame_count fuel round written : ℕ)
    {result : ℕ}
    → written ≤ frame_count
    → copy_packets mapping packets frame_count fuel round written ≡ some result
    → (written ≤ result) × (result ≤ frame_count)
unfolding copy_packets
copy_packets-le mapping packets c zero round n h e = cc
copy_packets-le mapping packets c (suc fuel) round n {result} h e = ground (
  arith,
  copy_packets-le mapping packets c fuel (suc round) n {result = result},
  copy_packets-le mapping packets c fuel (suc round) (suc n) {result = result},
)

-- Where no packet is written and the input does not end, as when every write fails, the loop never
-- ends, however many packets it is given.
pub copy_packets-endless :
    (mapping : List (Option ℕ)) (index : ℕ → ℕ) (code : ℕ → ℤ) (frame_count fuel round : ℕ)
    → ((i : ℕ) → is_written mapping (index i) (code i) ≡ false)
    → 0 < frame_count
    → copy_packets mapping (λ i. packet (index i) (code i)) frame_count fuel round 0 ≡ none
unfolding copy_packets
copy_packets-endless mapping index code c zero round s h = refl
copy_packets-endless mapping index code c (suc fuel) round s h =
    rw (s round) (ground (arith, copy_packets-endless mapping index code c fuel (suc round) s h))

-- The streams that are kept among the first ones.
abbrev pub kept_before : ℕ → List Stream → ℕ
kept_before zero ss = 0
kept_before (suc i) [] = 0
kept_before (suc i) (s ∷ ss) = if s.is_kept then suc (kept_before i ss) else kept_before i ss

-- Where an entry of a mapping comes from: it is the first, or one of the rest.
data Entry (o : Option ℕ) (r : Mapping) : ℕ → ℕ → Type 0 where
  first : {k : ℕ} → o ≡ some k → Entry o r zero k
  later :
      {i k : ℕ} {rest : List (Option ℕ)}
      → r ≡ mapped rest
      → get_elem? rest i ≡ some (some k)
      → Entry o r (suc i) k

get_elem?-Entry :
    (o : Option ℕ) (r : Mapping) (i : ℕ) {m : List (Option ℕ)} {k : ℕ}
    → before o r ≡ mapped m
    → get_elem? m i ≡ some (some k)
    → Entry o r i k
get_elem?-Entry o (refused code) i h g = absurd (cc h)
get_elem?-Entry o (mapped rest) zero h g = first (cc)
get_elem?-Entry o (mapped rest) (suc i) {m} {k} h g =
    let e : m ≡ o ∷ rest = cc h in
    later refl (subst (λ (l : List (Option ℕ)). get_elem? l (suc i) ≡ some (some k)) e g)

-- An output stream has the number of the kept input streams before its own, counted from `next`:
-- the outputs are numbered in order without gaps.
pub map_streams-number :
    (error_unknown : ℤ) (next : ℕ) (ss : List Stream) (i : ℕ) {m : List (Option ℕ)} {k : ℕ}
    → map_streams error_unknown next ss ≡ mapped m
    → get_elem? m i ≡ some (some k)
    → k ≡ next + kept_before i ss
unfolding map_streams
map_streams-number u next [] i {m} h g = absurd (cc)
map_streams-number u next (s ∷ ss) i {m} {k} h g = elim (Bool-cases s.is_kept) [
  | inl y ↦
      kept i y (get_elem?-Entry (some next) (map_streams u (suc next) ss) i (taken y) g)
        (λ j rest a b. map_streams-number u (suc next) ss j a b)
  | inr n ↦
      skipped i n (get_elem?-Entry none (map_streams u next ss) i (rw n at h) g)
        (λ j rest a b. map_streams-number u next ss j a b)
]
  where
    taken : s.is_kept ≡ true → before (some next) (map_streams u (suc next) ss) ≡ mapped m
    taken y = ground arith

    Rest : ℕ → Type 0
    Rest nxt =
        (j : ℕ) (rest : List (Option ℕ))
        → map_streams u nxt ss ≡ mapped rest
        → get_elem? rest j ≡ some (some k)
        → k ≡ nxt + kept_before j ss

    kept :
        (i : ℕ)
        → s.is_kept ≡ true
        → Entry (some next) (map_streams u (suc next) ss) i k
        → Rest (suc next)
        → k ≡ next + kept_before i (s ∷ ss)
    kept zero y (first e) f = let q : next ≡ k = cc e in omega (arith, q)
    kept (suc j) y (later {rest} a b) f = rw y (omega (arith, f j rest a b))

    skipped :
        (i : ℕ)
        → s.is_kept ≡ false
        → Entry none (map_streams u next ss) i k
        → Rest next
        → k ≡ next + kept_before i (s ∷ ss)
    skipped zero n (first e) f = absurd (cc e)
    skipped (suc j) n (later {rest} a b) f = rw n (f j rest a b)
