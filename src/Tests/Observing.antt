-- ===== src/Tests/Observing.antt =====
-- Metrics.
use load_balancer.Base.{ℕ, ◌≡◌, refl, String, List, [], ◌∷◌, ◌==◌, if◌then◌else◌, show_nat}
use load_balancer.Base.Dict.{insert, lookup}
use load_balancer.Metrics.{new_collector, get_snapshot, record_request, bump}
use load_balancer.Metrics.Totals.{Request, record_all}

abbrev text : ℕ → String
text status = if status == 200 then "OK" else ""

abbrev requests : List Request
requests =
    record {
      backend = "a:1";
      status = 200;
      duration = 1;
      method = "GET";
      req_size = 0;
      resp_size = 9;
    }
    ∷ record {
      backend = "b:1";
      status = 503;
      duration = 0;
      method = "GET";
      req_size = 4;
      resp_size = 0;
    }
    ∷ []

counted :
    (get_snapshot (record_all text requests new_collector)).status_codes
    ≡ ("200", 1) ∷ ("503", 1) ∷ []
unfolding get_snapshot record_all new_collector record_request bump insert lookup show_nat
counted = refl
