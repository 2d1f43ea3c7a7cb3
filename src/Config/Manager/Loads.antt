-- ===== src/Config/Manager/Loads.antt =====
-- internal/config/config.go: from which files NewManager makes a manager.
use load_balancer.Base.{◌≡◌, refl, ◌⊎◌, inl, inr, Bool, Option, none, some, String, List, [], ◌∷◌}
use load_balancer.Balancer.Backend.{Url}
use load_balancer.Config.{Config}
use load_balancer.Config.Validator.{Problem, validate_config}
use load_balancer.Config.Valid.{IsValid, validate_config_iff}
use load_balancer.Config.Manager.{Manager, check, decoded, load, new_manager}

abbrev pub manager_with : String → Config → Manager
manager_with path c = record { path = path; config = c }

module _ {F : Type 0} (decode : F → Option Config) (parse : String → Option Url)
    (exists : String → Bool) where
  -- The file is there and decodes to a valid configuration.
  abbrev pub IsLoaded : Option F → Config → Type 0
  IsLoaded file c = (f : F) × (file ≡ some f) × (decode f ≡ some c) × IsValid parse exists c

module _ {F : Type 0} (decode : F → Option Config) (parse : String → Option Url)
    (exists : String → Bool) (path : String) where
  pub new_manager_loaded :
      (file : Option F) (c : Config)
      → IsLoaded decode parse exists file c
      → new_manager decode parse exists path file ≡ some (manager_with path c)
  unfolding new_manager load decoded check
  new_manager_loaded file c (f, read, decodes, valid) =
      rw (read, decodes, (validate_config_iff parse exists c).1 valid, new_manager) refl

  checked-cases :
      (file : Option F) (f : F) (c : Config) (ps : List Problem)
      → file ≡ some f
      → decode f ≡ some c
      → validate_config parse exists c ≡ ps
      → (new_manager decode parse exists path file ≡ none)
        ⊎ ((d : Config) × IsLoaded decode parse exists file d)
  unfolding new_manager load decoded check
  checked-cases file f c [] read decodes verdict =
      inr (c, (f, read, decodes, (validate_config_iff parse exists c).0 verdict))
  checked-cases file f c (p ∷ ps) read decodes verdict =
      inl (rw (read, decodes, verdict, new_manager) refl)

  decoded-cases :
      (file : Option F) (f : F) (o : Option Config)
      → file ≡ some f
      → decode f ≡ o
      → (new_manager decode parse exists path file ≡ none)
        ⊎ ((d : Config) × IsLoaded decode parse exists file d)
  unfolding new_manager load decoded
  decoded-cases file f none read decodes = inl (rw (read, decodes, new_manager) refl)
  decoded-cases file f (some c) read decodes = checked-cases file f c _ read decodes refl

  pub new_manager-cases :
      (file : Option F)
      → (new_manager decode parse exists path file ≡ none)
        ⊎ ((c : Config) × IsLoaded decode parse exists file c)
  unfolding new_manager load
  new_manager-cases none = inl refl
  new_manager-cases (some f) = decoded-cases (some f) f (decode f) refl refl
