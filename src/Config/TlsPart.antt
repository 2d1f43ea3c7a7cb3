-- ===== src/Config/TlsPart.antt =====
-- What the TLS section of a configuration must be, described without the validator, and that the
-- validator finds no problem with just that.
use load_balancer.Base.{
  append_nil_iff, ◌≡◌, refl, ◌≢◌, ◌↔◌, ◌⊎◌, inl, inr, Bool, true, false, not, ◌&&◌, String, [], ◌∷◌,
  arith, str_eq_iff, if◌then◌else◌, Bool-cases,
}
use load_balancer.Config.{TlsConfig}
use load_balancer.Config.Validator.{Problem, when, is_blank, is_version, validate_tls}

abbrev pub IsVersion : String → Type 0
IsVersion s = (s ≡ "TLS1.0") ⊎ ((s ≡ "TLS1.1") ⊎ ((s ≡ "TLS1.2") ⊎ (s ≡ "TLS1.3")))

is_version_iff : (s : String) → (is_version s ≡ true) ↔ IsVersion s
is_version_iff s = (
  λ h. ground (
    arith,
    str_eq_iff s "TLS1.0",
    str_eq_iff s "TLS1.1",
    str_eq_iff s "TLS1.2",
    str_eq_iff s "TLS1.3",
  ),
  λ h. ground (
    arith,
    str_eq_iff s "TLS1.0",
    str_eq_iff s "TLS1.1",
    str_eq_iff s "TLS1.2",
    str_eq_iff s "TLS1.3",
  ),
)

when_nil_iff : (t : Bool) (p : Problem) → (when t p ≡ []) ↔ (t ≡ false)
when_nil_iff true p = (λ h. cc, λ h. cc)
when_nil_iff false p = (λ h. refl, λ h. refl)

no_problem-IsVersion :
    (s : String) (p : Problem)
    → (when (not (is_blank s) && not (is_version s)) p ≡ []) ↔ ((s ≡ "") ⊎ IsVersion s)
no_problem-IsVersion s p = (
  λ h. elim (Bool-cases (is_version s)) [
    | inl e ↦ inr ((is_version_iff s).0 e)
    | inr e ↦ inl ((str_eq_iff s "").0 (ground (arith, (when_nil_iff _ p).0 h, e)))
  ],
  λ h. elim h [
    | inl e ↦ rw ((str_eq_iff s "").1 e)
    | inr v ↦ (when_nil_iff _ p).1 (ground (arith, (is_version_iff s).1 v))
  ],
)

module _ (exists : String → Bool) where
  pub record TlsOk (c : TlsConfig) : Type 0 where
    pub cert_file : (c.cert_file ≢ "") × (exists c.cert_file ≡ true)
    pub key_file : (c.key_file ≢ "") × (exists c.key_file ≡ true)
    pub ca_file : (c.ca_file ≡ "") ⊎ (exists c.ca_file ≡ true)
    pub min_version : (c.min_version ≡ "") ⊎ IsVersion c.min_version
    pub max_version : (c.max_version ≡ "") ⊎ IsVersion c.max_version

  file_iff :
      (f : String) (p q : Problem)
      → ((if is_blank f then p ∷ [] else when (not (exists f)) q) ≡ [])
        ↔ ((f ≢ "") × (exists f ≡ true))
  file_iff f p q = (λ h. ground (arith, str_eq_iff f ""), λ h. ground (arith, str_eq_iff f ""))

  ca_iff :
      (f : String) (p : Problem)
      → (when (not (is_blank f) && not (exists f)) p ≡ []) ↔ ((f ≡ "") ⊎ (exists f ≡ true))
  ca_iff f p = (λ h. ground (arith, str_eq_iff f ""), λ h. ground (arith, str_eq_iff f ""))

  pub tls_iff : (c : TlsConfig) → (validate_tls exists c ≡ []) ↔ ((c.enabled ≡ false) ⊎ TlsOk c)
  unfolding validate_tls
  tls_iff c = elim (Bool-cases c.enabled) [
    | inr off ↦ (λ h. inl off, λ h. rw off)
    | inl on ↦ (
      λ h.
          let (a, r) = (append_nil_iff _ _).0 (rw on at h) in
          let (b, r2) = (append_nil_iff _ _).0 r in
          let (d, r3) = (append_nil_iff _ _).0 r2 in
          let (e, f) = (append_nil_iff _ _).0 r3 in
          inr (record {
            cert_file = (file_iff c.cert_file _ _).0 a;
            key_file = (file_iff c.key_file _ _).0 b;
            ca_file = (ca_iff c.ca_file _).0 d;
            min_version = (no_problem-IsVersion c.min_version _).0 e;
            max_version = (no_problem-IsVersion c.max_version _).0 f;
          }),
      λ h. elim h [
        | inl off ↦ cc
        | inr v ↦ rw on (
            (append_nil_iff _ _).1 (
              (file_iff c.cert_file _ _).1 v.cert_file,
              (append_nil_iff _ _).1 (
                (file_iff c.key_file _ _).1 v.key_file,
                (append_nil_iff _ _).1 (
                  (ca_iff c.ca_file _).1 v.ca_file,
                  (append_nil_iff _ _).1 (
                    (no_problem-IsVersion c.min_version _).1 v.min_version,
                    (no_problem-IsVersion c.max_version _).1 v.max_version,
                  ),
                ),
              ),
            ))
      ],
    )
  ]
