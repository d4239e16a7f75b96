-- ===== src/Database/Redis/Address.antt =====
-- The address that a configuration gives is read as its host and its port.
use mapper_framework_c.Prelude.{
  ℕ, ◌^◌, ◌<◌, ◌≡◌, ◌≢◌, refl, ap, sym, ◌∙◌, Bool, true, false, ◌==◌, some, [], ◌∷◌, ◌++◌, any, all,
  arith,
}
use mapper_framework_c.Prelude.Int.{pos}
use mapper_framework_c.Prelude.CString.{Str, print_int, atoi, is_digit}
use mapper_framework_c.Prelude.CString.Digits.{digits-IsDecimal, print_int-pos, atoi-print_int}
use mapper_framework_c.Database.Redis.{skip_colons, to_colon, behind_colon, redis_address}

abbrev pub is_colon : ℕ → Bool
is_colon c = c == b':'

skip_colons_id : (c : ℕ) (s : Str) → is_colon c ≡ false → skip_colons (c ∷ s) ≡ c ∷ s
unfolding skip_colons
skip_colons_id c s h = rw h refl

to_colon-append : (s t : Str) → any is_colon s ≡ false → to_colon (s ++ b':' ∷ t) ≡ s
unfolding to_colon
to_colon-append [] t h = refl
to_colon-append (c ∷ s) t h = ground (arith, to_colon-append s t)

to_colon_id : (s : Str) → any is_colon s ≡ false → to_colon s ≡ s
unfolding to_colon
to_colon_id [] h = refl
to_colon_id (c ∷ s) h = ground (arith, to_colon_id s)

behind_colon-append : (s t : Str) → any is_colon s ≡ false → behind_colon (s ++ b':' ∷ t) ≡ t
unfolding behind_colon
behind_colon-append [] t h = refl
behind_colon-append (c ∷ s) t h = ground (arith, behind_colon-append s t)

behind_colon-none : (s : Str) → any is_colon s ≡ false → behind_colon s ≡ []
unfolding behind_colon
behind_colon-none [] h = refl
behind_colon-none (c ∷ s) h = ground (arith, behind_colon-none s)

digit_no_colon : (c : ℕ) → is_digit c ≡ true → is_colon c ≡ false
digit_no_colon c h = ground arith

digits_no_colon : (s : Str) → all is_digit s ≡ true → any is_colon s ≡ false
digits_no_colon [] h = refl
digits_no_colon (c ∷ s) h = ground (arith, digit_no_colon c, digits_no_colon s)

address-parts :
    (c : ℕ) (host : Str) (p : ℕ) (port : Str)
    → any is_colon (c ∷ host) ≡ false
    → any is_colon (p ∷ port) ≡ false
    → redis_address ((c ∷ host) ++ b':' ∷ p ∷ port) ≡ (some (c ∷ host), atoi (p ∷ port))
unfolding redis_address
address-parts c host p port h k =
    rw
      (
        skip_colons_id c (host ++ b':' ∷ p ∷ port) (ground arith),
        to_colon-append (c ∷ host) (p ∷ port) h,
        behind_colon-append (c ∷ host) (p ∷ port) h,
        skip_colons_id p port (ground arith),
        to_colon_id (p ∷ port) k,
      )
      refl

-- An address of a host without a colon, a colon and the digits of a port is read as that host and
-- that port.
pub redis_address-host_port :
    (host : Str) (port : ℕ)
    → host ≢ []
    → any is_colon host ≡ false
    → port < 2 ^ 31
    → redis_address (host ++ b':' ∷ print_int (pos port)) ≡ (some host, pos port)
redis_address-host_port [] port f h l = absurd (f refl)
redis_address-host_port (c ∷ host) port f h l =
    let d = digits-IsDecimal port (omega arith) in
    let w : print_int (pos port) ≡ d.first ∷ d.others = print_int-pos port ∙ d.written in
    let a : atoi (d.first ∷ d.others) ≡ pos port = rw (sym w) (atoi-print_int port l) in
    rw w (
      address-parts c host d.first d.others h (digits_no_colon (d.first ∷ d.others) d.digits)
      ∙ ap (λ x. (some (c ∷ host), x)) a)
