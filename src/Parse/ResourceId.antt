-- ===== src/Parse/ResourceId.antt =====
-- `get_resource_id` of util/parse/grpc.c, and where the identifiers that it makes can lead.
use mapper_framework_c.Prelude.{
  ℕ, zero, suc, ◌-◌, ◌≡◌, refl, Bool, false, ◌==◌, Option, [], ◌∷◌, ◌++◌, arith, any, take,
  any-append, or_default,
}
use mapper_framework_c.Prelude.CString.{Str, codes, snprintf}

-- The text that `%s` prints; glibc prints a null pointer as "(null)".
abbrev pub printed : Option Str → Str
printed s = or_default s (codes "(null)")

-- What the buffer holds that is passed as `out`.
unfoldable pub get_resource_id : (ns name : Option Str) (outlen : ℕ) → Str
get_resource_id ns name outlen = snprintf outlen (printed ns ++ b'.' ∷ printed name)

abbrev pub has_slash : Str → Bool
has_slash = any (λ c. c == b'/')

pub any-take-false : (p : ℕ → Bool) (n : ℕ) (s : Str) → any p s ≡ false → any p (take n s) ≡ false
any-take-false p zero s h = refl
any-take-false p (suc n) [] h = refl
any-take-false p (suc n) (c ∷ s) h = ground (arith, any-take-false p n s)

-- An identifier has no slash if the namespace and the name have none.
pub has_slash-get_resource_id :
    (ns name : Option Str) (outlen : ℕ)
    → has_slash (printed ns) ≡ false
    → has_slash (printed name) ≡ false
    → has_slash (get_resource_id ns name outlen) ≡ false
unfolding get_resource_id
has_slash-get_resource_id ns name outlen h k =
    any-take-false (λ c. c == b'/') (outlen - 1) (printed ns ++ b'.' ∷ printed name)
      (ground (arith, any-append {0} (λ (c : ℕ). c == b'/') (printed ns) (b'.' ∷ printed name)))
