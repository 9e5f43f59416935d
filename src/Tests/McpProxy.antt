-- ===== src/Tests/McpProxy.antt =====
-- The proxy at concrete inputs.
use custos_core.Common.{
  ◌+◌, ◌≡◌, refl, true, false, ◌&&◌, not, none, some, [], ◌∷◌, arith, ltb, if◌then◌else◌,
}
use custos_core.McpProxy.{
  Bounds, Breaker, fresh_breaker, literal_true, GateVerdict, timed_out, raised, answered, no_hook,
  breaker_denies, refusal, Call, ask_gate, call_tool,
}
use custos_core.McpProxy.Forward.{
  questions, forwards, grants, reports_forward, bit, call_tool-forwards,
}
use custos_core.McpProxy.Opening.{after, after-TimesOut}
use custos_core.McpProxy.Probe.{asks, asks-raised}

abbrev bounds : Bounds
bounds = record { timeout_limit = 2; cooldown = 50 }

abbrev yes : GateVerdict
yes = record { allowed = literal_true; record_hash = some "h"; rule = none; reason = "" }

abbrev call : Call
call = record {
  now = 10;
  later = 12;
  answer = answered (some yes);
  hook = no_hook;
  has_forward = true;
  forward_raises = false;
}

abbrev slow : Call
slow = record call { answer = timed_out }

-- The breaker is open until 62.
abbrev open_breaker : Breaker
open_breaker = record { consecutive = 2; open_until = some 62; probing = false }

call_once : forwards (call_tool bounds call fresh_breaker).events ≡ 1
unfolding call_tool breaker_denies ask_gate refusal
call_once = refl

call_tool-forwards_example :
    let r = call_tool bounds call open_breaker in
    let passed = not (breaker_denies bounds 10 open_breaker).0 in
    (questions r.events ≡ bit passed)
    × (forwards r.events ≡ bit (passed && (grants call.answer && true)))
    × (reports_forward r.outcome ≡ passed && (grants call.answer && not (true && false)))
call_tool-forwards_example = call_tool-forwards bounds call open_breaker

after-TimesOut_example :
    questions (call_tool bounds call (after bounds (slow ∷ slow ∷ []) fresh_breaker)).events
    ≡ (if ltb 10 (12 + 50) then 0 else 1)
after-TimesOut_example = after-TimesOut bounds slow (slow ∷ []) call refl (refl, (refl, tt))

asks-raised_example :
    asks bounds
      (record call { now = 1000 } ∷ [])
      (call_tool bounds (record call { now = 70; answer = raised }) open_breaker).breaker
    ≡ 0
asks-raised_example =
    asks-raised bounds 62 (record call { now = 70; answer = raised })
      (record call { now = 1000 } ∷ []) open_breaker refl refl (omega arith) refl
