-- ===== src/Tls/Loading.antt =====
-- When LoadTLSConfig of internal/tls/tls.go gives a configuration, and what a valid section of the
-- configuration file can come to.
use load_balancer.Base.{
  ◌<◌, ◌≡◌, refl, sym, ◌∙◌, ◌↔◌, ◌⊎◌, inl, inr, Bool, true, false, some, String, [], arith, str_eq,
  str_eq_iff, Bool-cases,
}
use load_balancer.Config.{TlsConfig}
use load_balancer.Config.TlsPart.{TlsOk, tls_iff}
use load_balancer.Config.Validator.{validate_tls}
use load_balancer.Tls.{
  Config, parse_tls_version, Loaded, from_pair, of_section, with_pool, load_tls_config,
}

module _ {E : Type 0} {A : Type 0} where
  sum-cases : (r : E ⊎ A) → ((err : E) × (r ≡ inl err)) ⊎ ((a : A) × (r ≡ inr a))
  sum-cases (inl err) = inl (err, refl)
  sum-cases (inr a) = inr (a, refl)

  failed_not : (r : E ⊎ A) (err : E) (a : A) → r ≡ inl err → r ≡ inr a → ⊥
  failed_not r err a e1 e2 = cc

  inr-injective : (a b : A) → ◌≡◌ {A = E ⊎ A} (inr a) (inr b) → a ≡ b
  inr-injective a b e = cc

module _ {E : Type 0} {Cert : Type 0} {Text : Type 0} {Pool : Type 0}
    (load_pair : String → String → E ⊎ Cert) (read_file : String → E ⊎ Text)
    (append : Text → Pool × Bool) where
  no_text :
      (file : String) (err : E)
      → str_eq file "" ≡ false
      → read_file file ≡ inl err
      → (file ≡ "") ⊎ ((text : Text) × (read_file file ≡ inr text))
      → ⊥
  no_text file err named fails (inl blank) = let same = (str_eq_iff file "").1 blank in cc
  no_text file err named fails (inr (text, reads)) = failed_not _ err text fails reads

  Keeps : Config → Loaded Cert Pool → Type 0
  Keeps c t =
      (t.min_version ≡ parse_tls_version c.min_version)
      × (t.max_version ≡ parse_tls_version c.max_version)

  with_pool-Keeps :
      (c : Config) (t u : Loaded Cert Pool) (r : E ⊎ Text)
      → Keeps c t
      → with_pool load_pair read_file append t r ≡ inr u
      → Keeps c u
  unfolding Keeps
  with_pool-Keeps c t u (inl err) keeps e = absurd (failed_not (inl err) err u refl e)
  with_pool-Keeps c t u (inr text) keeps e = rw (sym (inr-injective _ u e)) keeps

  load_tls_config-Keeps :
      (c : Config) (t : Loaded Cert Pool)
      → load_tls_config load_pair read_file append c ≡ inr t
      → Keeps c t
  unfolding load_tls_config Keeps
  load_tls_config-Keeps c t done = elim (sum-cases (load_pair c.cert_file c.key_file)) [
    | inl (err, e) ↦ absurd (failed_not (inl err) err t refl (rw (e, load_tls_config) at done))
    | inr (cert, e) ↦ elim (Bool-cases (str_eq c.ca_file "")) [
      | inl blank ↦
          rw (sym (inr-injective _ t (rw (e, blank, load_tls_config) at done))) (refl, refl)
      | inr named ↦
          with_pool-Keeps c (from_pair c cert) t (read_file c.ca_file) (refl, refl)
            (rw (e, named, load_tls_config) at done)
    ]
  ]

  -- LoadTLSConfig gives a configuration exactly if the key pair loads and the CA file, where one is
  -- named, can be read.
  pub load_iff :
      (c : Config)
      → ((t : Loaded Cert Pool) × (load_tls_config load_pair read_file append c ≡ inr t)) ↔ (
          ((cert : Cert) × (load_pair c.cert_file c.key_file ≡ inr cert))
          × ((c.ca_file ≡ "") ⊎ ((text : Text) × (read_file c.ca_file ≡ inr text))))
  unfolding load_tls_config
  load_iff c = elim (sum-cases (load_pair c.cert_file c.key_file)) [
    | inl (err, e) ↦ (
      λ (t, done). absurd (failed_not (inl err) err t refl (rw (e, load_tls_config) at done)),
      λ ((cert, loaded), ca). absurd (failed_not _ err cert e loaded),
    )
    | inr (cert, e) ↦ elim (Bool-cases (str_eq c.ca_file "")) [
      | inl blank ↦ (
        λ (t, done). ((cert, e), inl ((str_eq_iff c.ca_file "").0 blank)),
        λ q. (from_pair c cert, rw (e, blank, load_tls_config) refl),
      )
      | inr named ↦ elim (sum-cases (read_file c.ca_file)) [
        | inl (err, f) ↦ (
          λ (t, done).
              absurd (failed_not (inl err) err t refl (rw (e, named, f, load_tls_config) at done)),
          λ (pair, ca). absurd (no_text c.ca_file err named f ca),
        )
        | inr (text, f) ↦ (
          λ (t, done). ((cert, e), inr (text, f)),
          λ q. (
            record (from_pair c cert) { client_cas = some (append text).0; verifies = true },
            rw (e, named, f, load_tls_config) refl,
          ),
        )
      ]
    ]
  ]

  -- A section of the configuration that the validator accepts, with TLS1.3 as the least version
  -- and no greatest version, comes to a greatest version below the least, where it loads.
  pub blank_max_unusable :
      (exists : String → Bool) (c : TlsConfig) (t : Loaded Cert Pool)
      → TlsOk exists c
      → c.min_version ≡ "TLS1.3"
      → c.max_version ≡ ""
      → load_tls_config load_pair read_file append (of_section c) ≡ inr t
      → (validate_tls exists c ≡ []) × (t.max_version < t.min_version)
  unfolding Keeps parse_tls_version
  blank_max_unusable exists c t ok low high done =
      let (least, greatest) = load_tls_config-Keeps (of_section c) t done in
      let three : t.min_version ≡ 0x0304 = least ∙ rw low refl in
      let two : t.max_version ≡ 0x0303 = greatest ∙ rw high refl in
      ((tls_iff exists c).1 (inr ok), rw (three, two) (omega arith))
