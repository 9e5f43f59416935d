-- ===== src/McpProxy/Opening.antt =====
-- custos/mcp_proxy.py: when the breaker opens, how long it stays open, and how it closes.
use custos_core.Common.{
  ℕ, suc, ◌+◌, ◌≡◌, refl, true, false, Option, none, some, List, [], ◌∷◌, arith, ltb, length, All,
  if◌then◌else◌,
}
use custos_core.McpProxy.{
  Bounds, Breaker, fresh_breaker, GateVerdict, timed_out, answered, record_answer, breaker_denies,
  refusal, Call, ask_gate, call_tool,
}
use custos_core.McpProxy.Forward.{questions, call_tool-forwards}

-- The breaker after a list of calls, each of which has ended before the next begins.
unfoldable pub after : Bounds → List Call → Breaker → Breaker
after b [] s = s
after b (c ∷ cs) s = after b cs (call_tool b c s).breaker

-- When the last of the calls was answered.
abbrev pub last_later : Call → List Call → ℕ
last_later c [] = c.later
last_later c (d ∷ cs) = last_later d cs

abbrev pub TimesOut : Call → Type 0
TimesOut c = c.answer ≡ timed_out

abbrev counting : ℕ → Breaker
counting k = record { consecutive = k; open_until = none; probing = false }

abbrev opened : Bounds → ℕ → Breaker
opened b now = record {
  consecutive = b.timeout_limit;
  open_until = some (now + b.cooldown);
  probing = false;
}

-- A call that times out on a closed breaker is counted.
counts :
    (b : Bounds) (c : Call) (k : ℕ)
    → TimesOut c
    → (call_tool b c (counting k)).breaker ≡ record_answer b true c.later (counting k)
unfolding call_tool breaker_denies ask_gate
counts b c k h = rw h refl

opens_after :
    (b : Bounds) (k : ℕ) (c : Call) (cs : List Call)
    → k + suc (length cs) ≡ b.timeout_limit
    → All TimesOut (c ∷ cs)
    → after b (c ∷ cs) (counting k) ≡ opened b (last_later c cs)
unfolding after record_answer
opens_after b k c [] e (h, _) = ground (arith, counts b c k h)
opens_after b k c (d ∷ cs) e (h, hs) =
    ground (arith, counts b c k h, opens_after b (k + 1) d cs (omega arith) hs)

-- As many timeouts in a row as the limit says, on a fresh breaker, open it: until the cooldown after the
-- last of them has passed, a call is refused without a question to the gate; from then on the gate is
-- asked.
pub after-TimesOut :
    (b : Bounds) (c : Call) (cs : List Call) (next : Call)
    → suc (length cs) ≡ b.timeout_limit
    → All TimesOut (c ∷ cs)
    → questions (call_tool b next (after b (c ∷ cs) fresh_breaker)).events
      ≡ (if ltb next.now (last_later c cs + b.cooldown) then 0 else 1)
unfolding breaker_denies
after-TimesOut b c cs next e h =
    let s = opened b (last_later c cs) in
    let asks = (call_tool-forwards b next s).0 in
    rw (opens_after b 0 c cs (omega arith) h) (ground arith)

answered_breaker :
    (b : Bounds) (c : Call) (s : Breaker) (v : Option GateVerdict)
    → (ask_gate b c (answered v) s).breaker ≡ fresh_breaker
unfolding ask_gate refusal record_answer
answered_breaker b c s none = refl
answered_breaker b c s (some v) = ground arith

-- If the breaker lets a call pass and the gate answers it in time, whatever it answers, then the next call
-- is put to the gate.
pub call_tool-answered :
    (b : Bounds) (c : Call) (s : Breaker) (v : Option GateVerdict) (next : Call)
    → (breaker_denies b c.now s).0 ≡ false
    → c.answer ≡ answered v
    → questions (call_tool b next (call_tool b c s).breaker).events ≡ 1
call_tool-answered b c s v next h e =
    let closed : (call_tool b c s).breaker ≡ fresh_breaker =
      unfold call_tool in simp h (simp e (answered_breaker b c (breaker_denies b c.now s).1 v)) in
    let asks = (call_tool-forwards b next fresh_breaker).0 in
    rw closed (unfold breaker_denies in ground arith)
