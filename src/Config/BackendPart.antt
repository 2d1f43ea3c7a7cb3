-- ===== src/Config/BackendPart.antt =====
-- What the backends of a configuration must be, described without the validator, and that the
-- validator finds no problem with just those.
use load_balancer.Base.{
  append_nil_iff, ℕ, ◌+◌, ◌≡◌, refl, ◌≢◌, ◌↔◌, ◌⊎◌, inl, inr, Option, none, some, String, List, [],
  ◌∷◌, arith, str_eq_iff, Bool-cases, All,
}
use load_balancer.Balancer.Backend.{Url}
use load_balancer.Config.{BackendConfig}
use load_balancer.Config.Validator.{
  is_blank, validate_backend, validate_each, check_parsed, validate_backends,
}
use load_balancer.Config.Parts.{IsNonnegative}

abbrev pub BackendOk : (String → Option Url) → BackendConfig → Type 0
BackendOk parse b =
    (b.url ≢ "")
    × ((u : Url) × (parse b.url ≡ some u)
        × ((u.scheme ≡ "http") ⊎ (u.scheme ≡ "https"))
        × (u.host ≢ ""))
    × IsNonnegative b.weight

module _ (parse : String → Option Url) where
  parsed_iff :
      (i : ℕ) (b : BackendConfig) (o : Option Url)
      → (check_parsed parse i b o ≡ []) ↔ (
          ((u : Url) × (o ≡ some u) × ((u.scheme ≡ "http") ⊎ (u.scheme ≡ "https")) × (u.host ≢ ""))
          × IsNonnegative b.weight)
  parsed_iff i b none = (λ h. cc, λ h. cc (h.0.1))
  parsed_iff i b (some u) = (
    λ h. (
      (
        u,
        refl,
        ground (arith, str_eq_iff u.scheme "http", str_eq_iff u.scheme "https"),
        ground (arith, str_eq_iff u.host ""),
      ),
      ground arith,
    ),
    λ h.
        let ((v, e, s, n), w) = h in
        ground (
          arith,
          e,
          s,
          n,
          w,
          str_eq_iff v.scheme "http",
          str_eq_iff v.scheme "https",
          str_eq_iff v.host "",
        ),
  )

  backend_iff : (i : ℕ) (b : BackendConfig) → (validate_backend parse i b ≡ []) ↔ BackendOk parse b
  unfolding validate_backend
  backend_iff i b = elim (Bool-cases (is_blank b.url)) [
    | inl e ↦ (λ h. cc (rw e at h), λ h. absurd (h.0 ((str_eq_iff b.url "").0 e)))
    | inr e ↦
        let filled : b.url ≢ "" = λ q. cc (e, (str_eq_iff b.url "").1 q) in
        (
          λ h. let (u, w) = (parsed_iff i b (parse b.url)).0 (rw e at h) in (filled, u, w),
          λ h. rw e ((parsed_iff i b (parse b.url)).1 (h.1, h.2)),
        )
  ]

  each_iff :
      (i : ℕ) (bs : List BackendConfig) → (validate_each parse i bs ≡ []) ↔ All (BackendOk parse) bs
  unfolding validate_each
  each_iff i [] = (λ h. tt, λ h. refl)
  each_iff i (b ∷ bs) = (
    λ h.
        let (x, y) =
          (append_nil_iff (validate_backend parse i b) (validate_each parse (i + 1) bs)).0 h in
        ((backend_iff i b).0 x, (each_iff (i + 1) bs).0 y),
    λ h.
        (append_nil_iff (validate_backend parse i b) (validate_each parse (i + 1) bs)).1
          ((backend_iff i b).1 h.0, (each_iff (i + 1) bs).1 h.1),
  )

  pub backends_iff :
      (bs : List BackendConfig)
      → (validate_backends parse bs ≡ []) ↔ ((bs ≢ []) × All (BackendOk parse) bs)
  unfolding validate_backends
  backends_iff [] = (λ h. cc, λ h. absurd (h.0 refl))
  backends_iff (b ∷ bs) =
      (λ h. ((λ e. cc), (each_iff 0 (b ∷ bs)).0 h), λ h. (each_iff 0 (b ∷ bs)).1 h.1)
