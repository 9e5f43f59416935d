-- ===== src/Tests/Firewall.antt =====
-- Validation and the firewall at concrete inputs.
use custos_core.Common.{String, ◌≡◌, ◌↔◌, refl, true, none, some, [], err}
use custos_core.Common.Dict.{lookup, insert}
use custos_core.Audit.Record.{AuditError}
use custos_core.Audit.Chain.{bound_evidence_required}
use custos_core.Policy.Engine.{evaluate, scan}
use custos_core.ActionGate.{regex}
use custos_core.ActionGate.Evaluate.{engine_evaluate}
use custos_core.RateLimiter.{empty_limiter, register, check_and_consume, check, judge}
use custos_core.Execution.Target.{
  checked_host, pins, pin_all, any_prefix, starts_with, validate_target_url,
}
use custos_core.Execution.{phase, circuit_of, can_request, first_of, send, forward_checked, forward}
use custos_core.Validation.{
  text, integer, len, byte_size, validate_content, validate_client_id, validate_token_count,
  validate_request,
}
use custos_core.Validation.Accepts.{GoodClient, GoodContent, GoodTokens, validate_request-valid_iff}
use custos_core.Firewall.{
  ExecutionFirewall, Messages, Surroundings, Call, enforce, enforce_limited, enforce_decision,
  forward_and_record, record_then,
}
use custos_core.Firewall.Enforced.{Enforced, enforce-Enforced, Recorded, enforce-Recorded}
use custos_core.Firewall.Unbound.{enforce-unbound}
use custos_core.Tests.Toy.{toy, noon, acme}
use custos_core.Tests.RateLimiter.{quota}
use custos_core.Tests.ActionGate.{env, engine}
use custos_core.Tests.Execution.{net, adapter, request}

abbrev pub same : String → String
same s = s

validate_request-valid_iff_example :
    ((validate_request same (text "agent") (text "hello") (integer 3)).valid ≡ true)
    ↔ GoodClient same (text "agent") × GoodContent same (text "hello") × GoodTokens (integer 3)
validate_request-valid_iff_example =
    validate_request-valid_iff same (text "agent") (text "hello") (integer 3)

abbrev messages : Messages
messages = record {
  invalid = λ e. "invalid";
  limited = λ r. "limited";
  sent_to = λ url status. url;
  failed_with = λ e. "failed";
}

abbrev around : Surroundings
around = record { env = env; net = net; strip = same; messages = messages; now = 2000 }

-- The same in a deployment that wants every record bound.
abbrev bound_around : Surroundings
bound_around = record around {
  env = record env { moment = record noon { require_bound = some "on" } };
}

abbrev call : Call
call = record {
  client_id = "agent";
  content = "hello";
  token_count = 3;
  request = request;
  rate_key = none;
  trace_id = some "t1";
}

abbrev firewall : ExecutionFirewall
firewall = record {
  engine = regex engine;
  limiter = register "agent" quota 1000 empty_limiter;
  chain = acme;
  rows = [];
  adapter = adapter;
}

enforce-Enforced_example : Enforced around call firewall "93.184.216.34"
unfolding enforce enforce_limited enforce_decision forward_and_record record_then validate_request
    validate_content validate_client_id validate_token_count len byte_size register
    check_and_consume check judge engine_evaluate evaluate scan forward forward_checked send
    first_of can_request phase circuit_of validate_target_url checked_host pins pin_all any_prefix
    starts_with lookup insert
enforce-Enforced_example = enforce-Enforced around call firewall "93.184.216.34" refl

enforce-Recorded_example :
    Recorded toy call acme
      (enforce around call firewall).result
      (enforce around call firewall).firewall.chain
unfolding validate_request validate_content validate_client_id validate_token_count len byte_size
enforce-Recorded_example = enforce-Recorded around call firewall refl

enforce-unbound_example :
    (x : AuditError) × ((enforce bound_around call firewall).result ≡ err x)
    × ((enforce bound_around call firewall).firewall.chain ≡ acme)
    × ((enforce bound_around call firewall).firewall.rows ≡ [])
unfolding bound_evidence_required enforce enforce_limited enforce_decision forward_and_record
    record_then validate_request validate_content validate_client_id validate_token_count len
    byte_size register check_and_consume check judge engine_evaluate evaluate scan forward
    forward_checked send first_of can_request phase circuit_of validate_target_url checked_host pins
    pin_all any_prefix starts_with lookup insert
enforce-unbound_example = enforce-unbound bound_around call firewall "93.184.216.34" refl refl
