-- ===== src/McpProxy.antt =====
-- custos/mcp_proxy.py and custos/mcp_gate_adapter.py: one tool call after another through the gate. The
-- gate's answer, the clock and the identifier of the call are arguments; a call is one step, with the
-- first part of it (`breaker_denies`) a step of its own where calls overlap.
pub mod Forward
pub mod Opening
pub mod Probe
use custos_core.Common.{
  ℕ, ◌+◌, ◌-◌, String, Bool, true, false, Option, none, some, List, [], ◌∷◌, leb, ltb, str_eq,
  is_nonempty, if◌then◌else◌,
}

-- `self._timeout_limit` and `self._cooldown`.
pub record Bounds : Type 0 where
  pub timeout_limit : ℕ
  pub cooldown : ℕ

-- The dictionary `self._breakers`.
pub record Breaker : Type 0 where
  pub consecutive : ℕ
  pub open_until : Option ℕ
  pub probing : Bool

abbrev pub fresh_breaker : Breaker
fresh_breaker = record { consecutive = 0; open_until = none; probing = false }

-- What `allowed` may hold: the two Boolean objects, or anything else.
pub data Allowed : Type 0 where
  literal_true literal_false other_value : Allowed

pub record GateVerdict : Type 0 where
  pub allowed : Allowed
  pub record_hash : Option String
  pub rule : Option String
  pub reason : String

-- How the awaited call of the gate ends.
pub data Answer : Type 0 where
  timed_out raised : Answer
  answered : Option GateVerdict → Answer

-- How the adapter's `record_denial` ends, if there is one: with its Boolean, or in an exception.
pub data Hook : Type 0 where
  no_hook hook_raised : Hook
  hook_returned : Bool → Hook

pub record ProxyOutcome : Type 0 where
  pub forwarded : Bool
  pub record_hash : Option String
  pub rule : Option String
  pub reason : String
  pub reconciled : Bool

abbrev pub reason_timeout : String
reason_timeout = "mcp_proxy_gate_timeout"

abbrev pub reason_error : String
reason_error = "mcp_proxy_gate_error"

abbrev pub reason_malformed : String
reason_malformed = "mcp_proxy_malformed_verdict"

abbrev pub reason_circuit_open : String
reason_circuit_open = "mcp_proxy_gate_circuit_open"

-- What a call does outside the proxy, in order.
pub data Event : Type 0 where
  asked forwarded_call : Event
  denial_hook : String → Event

-- `_record_answer`
unfoldable pub record_answer : Bounds → (timed_out : Bool) → ℕ → Breaker → Breaker
record_answer b false now s = record { consecutive = 0; open_until = none; probing = false }
record_answer b true now s = record {
  consecutive = s.consecutive + 1;
  open_until =
      if leb b.timeout_limit (s.consecutive + 1) then some (now + b.cooldown) else s.open_until;
  probing = false;
}

abbrev half_open : Bounds → Breaker
half_open b = record { consecutive = b.timeout_limit - 1; open_until = none; probing = true }

-- `_breaker_denies`: the answer, and the breaker after.
unfoldable pub breaker_denies : Bounds → ℕ → Breaker → Bool × Breaker
breaker_denies b now s = if s.probing then (true, s) else elim s.open_until [
  | none ↦ (false, s)
  | some u ↦ if ltb now u then (true, s) else (false, half_open b)
]

-- `_reconcile`: the Boolean that the hook returns is not read.
unfoldable pub reconcile : Hook → Bool
reconcile no_hook = false
reconcile hook_raised = false
reconcile (hook_returned b) = true

abbrev hook_events : Hook → String → List Event
hook_events no_hook rule = []
hook_events _ rule = denial_hook rule ∷ []

abbrev refused : String → Bool → ProxyOutcome
refused rule reconciled = record {
  forwarded = false;
  record_hash = none;
  rule = some rule;
  reason = rule;
  reconciled = reconciled;
}

abbrev or_denied : String → String
or_denied reason = if is_nonempty reason then reason else "denied"

-- `_refusal`
unfoldable pub refusal : Option GateVerdict → Option ProxyOutcome
refusal none = some (refused reason_malformed false)
refusal (some v) = elim v.allowed [
  | literal_true ↦ none
  | literal_false ↦ some (record {
    forwarded = false;
    record_hash = v.record_hash;
    rule = v.rule;
    reason = or_denied v.reason;
    reconciled = false;
  })
  | other_value ↦ some (refused reason_malformed false)
]

abbrev hash_of : Option GateVerdict → Option String
hash_of none = none
hash_of (some v) = v.record_hash

abbrev allowed_outcome : Option GateVerdict → ProxyOutcome
allowed_outcome v = record {
  forwarded = true;
  record_hash = hash_of v;
  rule = none;
  reason = "";
  reconciled = false;
}

-- What the caller gives to a call, and what the world does during it: `now` is the clock at the start,
-- `later` at the gate's answer. A forward that raises ends the call with its exception.
pub record Call : Type 0 where
  pub now : ℕ
  pub later : ℕ
  pub answer : Answer
  pub hook : Hook
  pub has_forward : Bool
  pub forward_raises : Bool

-- The result of a call: no outcome if the forward has raised.
pub record Returned : Type 0 where
  pub outcome : Option ProxyOutcome
  pub events : List Event
  pub breaker : Breaker

abbrev proceed : Call → Option GateVerdict → Breaker → Returned
proceed c v s =
    if c.has_forward
    then if c.forward_raises
      then record { outcome = none; events = asked ∷ forwarded_call ∷ []; breaker = s }
      else record {
        outcome = some (allowed_outcome v);
        events = asked ∷ forwarded_call ∷ [];
        breaker = s;
      }
    else record { outcome = some (allowed_outcome v); events = asked ∷ []; breaker = s }

-- The part of `call_tool` after the breaker has let the call pass.
unfoldable pub ask_gate : Bounds → Call → Answer → Breaker → Returned
unfolding record_answer refusal
ask_gate b c timed_out s = record {
  outcome = some (refused reason_timeout (reconcile c.hook));
  events = asked ∷ hook_events c.hook reason_timeout;
  breaker = record_answer b true c.later s;
}
ask_gate b c raised s = record {
  outcome = some (refused reason_error false);
  events = asked ∷ [];
  breaker = s;
}
ask_gate b c (answered v) s =
    let s' = record_answer b false c.later s in
    elim (refusal v) [
      | some outcome ↦ record { outcome = some outcome; events = asked ∷ []; breaker = s' }
      | none ↦ proceed c v s'
    ]

-- `McpProxy.call_tool`
unfoldable pub call_tool : Bounds → Call → Breaker → Returned
unfolding breaker_denies
call_tool b c s =
    let (denied, s') = breaker_denies b c.now s in
    let passed = ask_gate b c c.answer s' in
    if denied
    then record {
      outcome = some (refused reason_circuit_open (reconcile c.hook));
      events = hook_events c.hook reason_circuit_open;
      breaker = s';
    }
    else passed
