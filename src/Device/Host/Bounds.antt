-- ===== src/Device/Host/Bounds.antt =====
-- What `normalize_host_port` promises of the host and the port that it hands on.
use mapper_framework_c.Prelude.{
  ℕ, suc, ◌-◌, ◌<◌, ◌≤◌, ◌≡◌, ◌≢◌, refl, true, Bool-cases, inl, inr, if◌then◌else◌, arith, Option,
  some, [], ◌∷◌, length, all, take_all, all-take,
}
use mapper_framework_c.Prelude.Int.{ℤ, pos}
use mapper_framework_c.Prelude.CString.{
  Str, codes, is_space, skip_space, snprintf, length-snprintf-lt,
}
use mapper_framework_c.Device.Host.{
  trim_end, trim_str, is_host_char, sanitize_host, is_port, or_else, or_empty, clean_host,
  normalize_host, normalize_port, normalize_host_port, env_port_or,
}

length-skip_space-le : (s : Str) → length (skip_space s) ≤ length s
unfolding skip_space
length-skip_space-le [] = omega arith
length-skip_space-le (c ∷ s) = ground (arith, length-skip_space-le s)

length-trim_end-le : (s : Str) → length (trim_end s) ≤ length s
unfolding trim_end
length-trim_end-le [] = omega arith
length-trim_end-le (c ∷ s) = ground (arith, length-trim_end-le s)

length-sanitize_host-le : (s : Str) → length (sanitize_host s) ≤ length s
unfolding sanitize_host
length-sanitize_host-le [] = omega arith
length-sanitize_host-le (c ∷ s) = ground (arith, length-sanitize_host-le s)

all-sanitize_host : (s : Str) → all is_host_char (sanitize_host s) ≡ true
unfolding sanitize_host
all-sanitize_host [] = refl
all-sanitize_host (c ∷ s) = ground (arith, all-sanitize_host s)

length-clean_host-lt : (size : ℕ) (s : Str) → 0 < size → length (clean_host size s) < size
unfolding clean_host trim_str
length-clean_host-lt size s h =
    let cut = snprintf size s in
    omega (
      arith,
      length-sanitize_host-le (trim_end (skip_space cut)),
      length-trim_end-le (skip_space cut),
      length-skip_space-le cut,
      length-snprintf-lt size s h,
    )

-- A host that other code may put into a command line: not empty, with its zero inside `size`
-- bytes, and of host characters only.
pub record IsHost (size : ℕ) (s : Str) : Type 0 where
  pub filled : s ≢ []
  pub fits : length s < size
  pub clean : all is_host_char s ≡ true

or_else-clean :
    (size : ℕ) (s t : Str)
    → length s < size
    → all is_host_char s ≡ true
    → IsHost size t
    → IsHost size (or_else s t)
or_else-clean size [] t l a h = h
or_else-clean size (c ∷ s) t l a h = record { filled = cc; fits = l; clean = a }

local-IsHost : (size : ℕ) → 1 < size → IsHost size (snprintf size (codes "127.0.0.1"))
unfolding is_host_char
local-IsHost size h = record {
  filled = filled;
  fits = length-snprintf-lt size (codes "127.0.0.1") (omega arith);
  clean = all-take is_host_char (size - 1) (codes "127.0.0.1") refl;
}
  where
    filled : snprintf size (codes "127.0.0.1") ≢ []
    filled = let e : size - 1 ≡ suc (size - 2) = omega arith in rw e (cc)

normalize_host-IsHost :
    (size : ℕ) (env_host raw_host : Option Str)
    → 1 < size
    → IsHost size (normalize_host size env_host raw_host)
unfolding normalize_host
normalize_host-IsHost size env_host raw_host h =
    let raw = clean_host size (or_empty raw_host) in
    let env = clean_host size (or_empty env_host) in
    first raw env (length-clean_host-lt size _ (omega arith))
      (length-clean_host-lt size _ (omega arith)) (clean raw_host) (clean env_host)
  where
    clean : (o : Option Str) → all is_host_char (clean_host size (or_empty o)) ≡ true
    clean o = unfold clean_host in all-sanitize_host _

    first :
        (raw env : Str)
        → length raw < size
        → length env < size
        → all is_host_char raw ≡ true
        → all is_host_char env ≡ true
        → IsHost size (or_else (or_else raw env) (snprintf size (codes "127.0.0.1")))
    first [] env lr le ar ae = or_else-clean size env _ le ae (local-IsHost size h)
    first (c ∷ s) env lr le ar ae = record { filled = cc; fits = lr; clean = ar }

normalize_port-is_port :
    (env_port : Option Str) (raw_port : ℤ) → is_port (normalize_port env_port raw_port) ≡ true
unfolding normalize_port
normalize_port-is_port env_port raw_port =
    last (if is_port raw_port then raw_port else env_port_or env_port raw_port)
  where
    last : (p : ℤ) → is_port (if is_port p then p else pos 1502) ≡ true
    last p = elim (Bool-cases (is_port p)) [ inl y ↦ rw y y | inr n ↦ rw n refl ]

-- Whatever the configuration and the environment hold, the host is not empty, fits the buffer
-- (of at least two bytes) and has host characters only, and the port is from 1 to 65535.
pub normalize_host_port-bounds :
    (size : ℕ) (env_host env_port raw_host : Option Str) (raw_port : ℤ)
    → 1 < size
    → IsHost size (normalize_host_port size env_host env_port raw_host raw_port).0
      × (is_port (normalize_host_port size env_host env_port raw_host raw_port).1 ≡ true)
unfolding normalize_host_port
normalize_host_port-bounds size env_host env_port raw_host raw_port h =
    (normalize_host-IsHost size env_host raw_host h, normalize_port-is_port env_port raw_port)

skip_space_host : (s : Str) → all is_host_char s ≡ true → skip_space s ≡ s
unfolding skip_space is_space is_host_char
skip_space_host [] h = refl
skip_space_host (c ∷ s) h = ground arith

trim_end_host : (s : Str) → all is_host_char s ≡ true → trim_end s ≡ s
unfolding trim_end is_space is_host_char
trim_end_host [] h = refl
trim_end_host (c ∷ []) h = ground arith
trim_end_host (c ∷ d ∷ s) h = rw (trim_end_host (d ∷ s) (ground arith))

sanitize_host_id : (s : Str) → all is_host_char s ≡ true → sanitize_host s ≡ s
unfolding sanitize_host
sanitize_host_id [] h = refl
sanitize_host_id (c ∷ s) h = ground (arith, sanitize_host_id s)

clean_host_id : (size : ℕ) (s : Str) → IsHost size s → clean_host size s ≡ s
unfolding clean_host trim_str
clean_host_id size s h =
    rw
      (
        take_all (size - 1) s (omega (arith, h.fits)),
        skip_space_host s h.clean,
        trim_end_host s h.clean,
      )
      (sanitize_host_id s h.clean)

-- A host of host characters that fits, and a port from 1 to 65535, are passed on as they are,
-- whatever the environment holds.
pub normalize_host_port_id :
    (size : ℕ) (env_host env_port : Option Str) (host : Str) (port : ℤ)
    → IsHost size host
    → is_port port ≡ true
    → normalize_host_port size env_host env_port (some host) port ≡ (host, port)
unfolding normalize_host_port normalize_host normalize_port
normalize_host_port_id size env_host env_port [] port h p = absurd (h.filled refl)
normalize_host_port_id size env_host env_port (c ∷ s) port h p =
    rw (clean_host_id size (c ∷ s) h, p, p)
