-- ===== src/Tests/Configuring.antt =====
-- Configurations, as in internal/config's Go tests, and the errors.
use load_balancer.Base.{◌≡◌, refl, ◌↔◌, Option, none, some, List, [], ◌∷◌}
use load_balancer.Config.{Config}
use load_balancer.Config.Validator.{
  validate_config, validate_server, validate_backends, validate_each, validate_backend,
  validate_health, validate_rate_limit, validate_strategy, validate_tls, validate_security,
}
use load_balancer.Tests.Fixtures.{good, parse_url, no_file}
use load_balancer.Config.Valid.{IsValid, validate_config_iff}
use load_balancer.Config.Manager.{
  Manager, Event, other_event, watch_error, write_event, new_manager, load, watch, served-IsValid,
}

-- A file that is a configuration, or garbage.
abbrev decode : Option Config → Option Config
decode c = c

validate_config_iff_example :
    (validate_config parse_url no_file good ≡ []) ↔ IsValid parse_url no_file good
validate_config_iff_example = validate_config_iff parse_url no_file good

abbrev spoiled : Config
spoiled = record good { strategy = "random" }

abbrev manager : Manager
manager = record { path = "config.yaml"; config = good }

abbrev events : List (Event (Option Config))
events =
    write_event none
    ∷ other_event
    ∷ write_event (some none)
    ∷ write_event (some (some spoiled))
    ∷ watch_error
    ∷ []

starts : new_manager decode parse_url no_file "config.yaml" (some (some good)) ≡ some manager
unfolding new_manager load validate_config validate_server validate_backends validate_each
    validate_backend validate_health validate_rate_limit validate_strategy validate_tls
    validate_security
starts = refl

served-IsValid_example :
    IsValid parse_url no_file (watch decode parse_url no_file manager events).config
served-IsValid_example =
    served-IsValid decode parse_url no_file "config.yaml" (some (some good)) manager events starts
