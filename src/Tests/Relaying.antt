-- ===== src/Tests/Relaying.antt =====
-- The program behind fasthttp, on the small configuration of Wiring.
use load_balancer.Base.{ℕ, [], bytes}
use load_balancer.Server.FastProxy.{FastRequest, FastReply, dashboard, relayed, error_reply}
use load_balancer.Tracing.RequestId
use load_balancer.Tracing.RequestId
use load_balancer.Entry.FastHttp.{FastContext}
use load_balancer.Tests.Wiring.{L}

abbrev put : FastReply → RequestId.Headers × ℕ → RequestId.Headers × ℕ
put dashboard (h, status) = (h, 200)
put (relayed code) (h, status) = (h, code)
put (error_reply code text) (h, status) = (h, code)

abbrev asked : FastRequest
asked = record { path = "/"; method = "GET"; forwarded_for = ""; remote_ip = "a"; body_length = 0 }

abbrev context : FastContext ℕ L Unit
context = record {
  remote_ip = "a";
  time = 1;
  request = [];
  generated = bytes "0f";
  response_headers = [];
  response = 200;
  values = [];
  limiters = [];
  proxy = tt;
}

-- The response is its status, with two bytes.
abbrev code_of : ℕ → ℕ
code_of status = status

abbrev two : ℕ → ℕ
two status = 2
