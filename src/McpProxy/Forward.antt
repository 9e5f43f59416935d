-- ===== src/McpProxy/Forward.antt =====
-- custos/mcp_proxy.py: what is forwarded, and on what answer.
use custos_core.Common.{
  ℕ, ◌+◌, ◌≡◌, Bool, true, false, ◌&&◌, not, Option, none, some, List, [], ◌∷◌, arith,
}
use custos_core.McpProxy.{
  Bounds, Breaker, Allowed, literal_true, Answer, timed_out, raised, answered, ProxyOutcome, Event,
  asked, forwarded_call, breaker_denies, refusal, Call, ask_gate, call_tool,
}

-- How often a list of events has the forward, and the question to the gate.
abbrev pub forwards : List Event → ℕ
forwards [] = 0
forwards (forwarded_call ∷ es) = 1 + forwards es
forwards (_ ∷ es) = forwards es

abbrev pub questions : List Event → ℕ
questions [] = 0
questions (asked ∷ es) = 1 + questions es
questions (_ ∷ es) = questions es

abbrev is_literal_true : Allowed → Bool
is_literal_true literal_true = true
is_literal_true _ = false

-- The gate's answer in time is a verdict that holds the literal True.
abbrev pub grants : Answer → Bool
grants (answered (some v)) = is_literal_true v.allowed
grants _ = false

abbrev pub reports_forward : Option ProxyOutcome → Bool
reports_forward none = false
reports_forward (some o) = o.forwarded

abbrev pub bit : Bool → ℕ
bit true = 1
bit false = 0

module _ (b : Bounds) (c : Call) where
  -- The three counts of `ask_gate`, for the answer that it is given.
  ask_gate-counts :
      (a : Answer) (s : Breaker)
      → let r = ask_gate b c a s in
        (questions r.events ≡ 1)
        × (forwards r.events ≡ bit (grants a && c.has_forward))
        × (reports_forward r.outcome ≡ grants a && not (c.has_forward && c.forward_raises))
  unfolding ask_gate refusal
  ask_gate-counts timed_out s = (ground arith, ground arith, ground arith)
  ask_gate-counts raised s = (ground arith, ground arith, ground arith)
  ask_gate-counts (answered none) s = (ground arith, ground arith, ground arith)
  ask_gate-counts (answered (some v)) s = (ground arith, ground arith, ground arith)

  -- A call of a tool asks the gate once, or not at all if the breaker denies it. It is forwarded once if
  -- the gate was asked and has answered in time with a verdict that holds the literal True, and the caller
  -- gave a forward; otherwise never. It is reported as forwarded exactly if the gate has granted it and
  -- no forward has raised.
  pub call_tool-forwards :
      (s : Breaker)
      → let r = call_tool b c s in
        let admitted = not (breaker_denies b c.now s).0 in
        (questions r.events ≡ bit admitted)
        × (forwards r.events ≡ bit (admitted && (grants c.answer && c.has_forward)))
        × (reports_forward r.outcome
            ≡ admitted && (grants c.answer && not (c.has_forward && c.forward_raises)))
  unfolding call_tool
  call_tool-forwards s =
      let (asks, sends, reports) = ask_gate-counts c.answer (breaker_denies b c.now s).1 in
      (ground arith, ground arith, ground arith)
