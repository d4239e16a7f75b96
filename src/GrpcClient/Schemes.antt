-- ===== src/GrpcClient/Schemes.antt =====
-- The address of the edge core, and the devices that are taken over.
use mapper_framework_c.Prelude.{
  ◌≡◌, refl, ◌==◌, true, Option, none, some, [], ◌∷◌, ◌++◌, arith, if_holds,
}
use mapper_framework_c.Prelude.CString.{Str, codes, starts_with}
use mapper_framework_c.GrpcClient.{uds_with_scheme}

starts_with-append : (p s : Str) → starts_with (p ++ s) p ≡ true
unfolding starts_with
starts_with-append [] s = refl
starts_with-append (c ∷ p) s = ground (arith, starts_with-append p s)

-- Every address has the scheme of a Unix socket.
pub uds_with_scheme_lem :
    (p : Option Str) → starts_with (uds_with_scheme p) (codes "unix://") ≡ true
unfolding uds_with_scheme
uds_with_scheme_lem none = starts_with-append (codes "unix://") (codes "/tmp/mapper_dmi.sock")
uds_with_scheme_lem (some []) = starts_with-append (codes "unix://") (codes "/tmp/mapper_dmi.sock")
uds_with_scheme_lem (some (c ∷ s)) =
    if_holds (λ (t : Str). starts_with t (codes "unix://") ≡ true)
      (starts_with (c ∷ s) (codes "unix://")) (λ y. y)
      (λ n.
        if_holds (λ (t : Str). starts_with t (codes "unix://") ≡ true) (c == b'/')
          (λ y. starts_with-append (codes "unix://") (c ∷ s))
          (λ z. starts_with-append (codes "unix://") (b'/' ∷ c ∷ s)))

-- An address that has its scheme stays as it is.
pub uds_with_scheme_idem :
    (p : Option Str) → uds_with_scheme (some (uds_with_scheme p)) ≡ uds_with_scheme p
unfolding uds_with_scheme starts_with
uds_with_scheme_idem p = kept (uds_with_scheme p) (uds_with_scheme_lem p)
  where
    kept : (t : Str) → starts_with t (codes "unix://") ≡ true → uds_with_scheme (some t) ≡ t
    kept [] h = absurd (cc h)
    kept (c ∷ s) h = rw h refl
