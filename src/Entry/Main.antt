-- ===== src/Entry/Main.antt =====
-- cmd/proxy/main.go up to the servers, from the file on: NewManager, Get, the strategy and the pool.
-- The file "config.yaml" as it is read then is given. `none` is logger.Fatal, which ends the process.
use load_balancer.Base.{◌≡◌, refl, sym, ap, ◌∙◌, ◌↔◌, inl, inr, Bool, Option, none, some, String}
use load_balancer.Balancer.Backend.{Heap, Url}
use load_balancer.Config.{Config}
use load_balancer.Config.Manager.{Manager, new_manager}
use load_balancer.Config.Manager.Loads.{
  IsLoaded, manager_with, new_manager_loaded, new_manager-cases,
}
use load_balancer.Config.Valid.{IsValid}
use load_balancer.Entry.Startup.{Running, start}
use load_balancer.Entry.Started.{started}

module _ {F : Type 0} (decode : F → Option Config) (parse : String → Option Url)
    (exists : String → Bool) (h : Heap) where
  unfoldable pub run_main : Option F → Option (Manager × Running)
  unfolding new_manager start
  run_main file = elim (new_manager decode parse exists "config.yaml" file) [
    | none ↦ none
    | some m ↦ elim (start parse h m.config) [ none ↦ none | some run ↦ some (m, run) ]
  ]

  loaded_runs :
      (file : Option F) (c : Config)
      → IsLoaded decode parse exists file c
      → (run : Running) × (run_main file ≡ some (manager_with "config.yaml" c, run))
  unfolding run_main
  loaded_runs file c good =
      let made = new_manager_loaded decode parse exists "config.yaml" file c good in
      let (run, runs, rest, served) = started parse exists h c "" good.3 in
      (run, rw (made, runs, run_main) refl)

  config_of : Config → Option (Manager × Running) → Config
  config_of c none = c
  config_of c (some (m, run)) = m.config

  -- main comes to the servers with a configuration exactly if the file is read and decodes to it
  -- and it is valid.
  pub run_main_iff :
      (file : Option F) (c : Config)
      → ((m : Manager) × (run : Running) × (run_main file ≡ some (m, run)) × (m.config ≡ c))
        ↔ ((f : F) × (file ≡ some f) × (decode f ≡ some c) × IsValid parse exists c)
  unfolding run_main config_of
  run_main_iff file c = (
    λ (m, run, runs, same). elim (new_manager-cases decode parse exists "config.yaml" file) [
      | inl stops ↦ let clash : none ≡ some (m, run) = rw (stops, run_main) at runs in cc
      | inr (d, good) ↦
          let (own, owns) = loaded_runs file d good in
          let eq : d ≡ c = sym (ap (config_of c) owns) ∙ ap (config_of c) runs ∙ same in
          rw eq at good
    ],
    λ good.
        let (run, runs) = loaded_runs file c good in
        (manager_with "config.yaml" c, run, runs, refl),
  )
