-- ===== src/Entry/Settings/Listening.antt =====
-- How runNetHttp serves what the configuration asks for.
use load_balancer.Base.{
  ◌≡◌, refl, ◌∙◌, ◌⊎◌, inl, inr, Bool, true, false, Option, none, some, String, arith, str_eq_iff,
  Bool-cases,
}
use load_balancer.Balancer.Backend.{Url}
use load_balancer.Config.{Config, TlsConfig}
use load_balancer.Config.TlsPart.{TlsOk}
use load_balancer.Config.Valid.{IsValid}
use load_balancer.Tls
use load_balancer.Tls.{of_section}
use load_balancer.Entry.Settings.{net_server, serves_tls, Serving, listen, listen_tls, prepare}

serves_tls-enabled :
    (exists : String → Bool) (c : TlsConfig)
    → (c.enabled ≡ false) ⊎ TlsOk exists c
    → serves_tls c ≡ c.enabled
unfolding serves_tls
serves_tls-enabled exists c (inl off) = rw off refl
serves_tls-enabled exists c (inr ok) =
    let cert = ok.cert_file in
    let key = ok.key_file in
    ground (arith, cert, key, str_eq_iff c.cert_file "", str_eq_iff c.key_file "")

-- What it comes to: the server without TLS where TLS is off, and else the server with what the
-- settings have loaded, or logger.Fatal where they do not load.
abbrev pub asked_for : {E : Type 0} → {T : Type 0} → Config → Bool → E ⊎ T → Option (Serving T)
asked_for c false loaded = some (listen (net_server c.server))
asked_for c true (inl err) = none
asked_for c true (inr t) = some (
    listen_tls (record (net_server c.server) { tls_config = some t }) c.tls.cert_file
      c.tls.key_file)

module _ {E : Type 0} {T : Type 0} (load : Tls.Config → E ⊎ T) where
  loaded-cases : (e : E ⊎ T) → ((x : E) × (e ≡ inl x)) ⊎ ((t : T) × (e ≡ inr t))
  loaded-cases (inl x) = inl (x, refl)
  loaded-cases (inr t) = inr (t, refl)

  -- With a valid configuration runNetHttp serves without TLS if TLS is off, and never if it is on:
  -- then it serves with the settings loaded from the section, or ends the process.
  pub prepare-asked_for :
      (parse : String → Option Url) (exists : String → Bool) (c : Config)
      → IsValid parse exists c
      → prepare load c ≡ asked_for c c.tls.enabled (load (of_section c.tls))
  unfolding prepare
  prepare-asked_for parse exists c valid =
      let test = serves_tls-enabled exists c.tls valid.tls in
      elim (Bool-cases c.tls.enabled) [
        | inr off ↦ rw (test ∙ off, off, prepare) refl
        | inl on ↦ elim (loaded-cases (load (of_section c.tls))) [
          | inl (x, e) ↦ rw (test ∙ on, on, e, prepare) refl
          | inr (t, e) ↦ rw (test ∙ on, on, e, prepare) refl
        ]
      ]
