-- ===== src/McpProxy/Probe.antt =====
-- custos/mcp_proxy.py: the one probe of a half-open breaker, and what its failure leaves behind.
use custos_core.Common.{
  ℕ, ◌+◌, ◌-◌, ◌≤◌, ◌≡◌, refl, Bool, true, false, ◌||◌, not, none, some, List, [], ◌∷◌, arith, leb,
}
use custos_core.McpProxy.{
  Bounds, Breaker, Answer, timed_out, answered, raised, hook_returned, breaker_denies, reconcile,
  Call, ask_gate, call_tool,
}
use custos_core.McpProxy.Forward.{bit, questions}

-- Callers that arrive one after another while no answer comes back: how many pass the breaker.
unfoldable pub admitted : Bounds → List ℕ → Breaker → ℕ
admitted b [] s = 0
admitted b (now ∷ times) s =
    let (denied, s') = breaker_denies b now s in bit (not denied) + admitted b times s'

abbrev pub any_from : ℕ → List ℕ → Bool
any_from u [] = false
any_from u (t ∷ ts) = leb u t || any_from u ts

admitted-probing :
    (b : Bounds) (times : List ℕ) (s : Breaker) → s.probing ≡ true → admitted b times s ≡ 0
unfolding admitted breaker_denies
admitted-probing b [] s h = refl
admitted-probing b (now ∷ times) s h = ground (arith, admitted-probing b times s h)

-- Of all the callers that find the breaker open and no probe under way, however many they are and whenever
-- they come, exactly one passes if any of them comes after the cooldown, and none otherwise, while no
-- answer comes back.
pub admitted-one :
    (b : Bounds) (u : ℕ) (times : List ℕ) (s : Breaker)
    → s.probing ≡ false
    → s.open_until ≡ some u
    → admitted b times s ≡ bit (any_from u times)
unfolding admitted breaker_denies
admitted-one b u [] s p h = refl
admitted-one b u (now ∷ times) s p h = ground (
  arith,
  admitted-one b u times s p h,
  admitted-probing b times
      (record { consecutive = b.timeout_limit - 1; open_until = none; probing = true }) refl,
)

-- How many questions a list of calls puts to the gate, each ended before the next begins.
unfoldable pub asks : Bounds → List Call → Breaker → ℕ
asks b [] s = 0
asks b (c ∷ cs) s = let r = call_tool b c s in questions r.events + asks b cs r.breaker

probing-stays :
    (b : Bounds) (c : Call) (s : Breaker)
    → s.probing ≡ true
    → (questions (call_tool b c s).events ≡ 0) × ((call_tool b c s).breaker.probing ≡ true)
unfolding call_tool breaker_denies
probing-stays b c s h = (ground arith, ground arith)

asks-probing : (b : Bounds) (cs : List Call) (s : Breaker) → s.probing ≡ true → asks b cs s ≡ 0
unfolding asks
asks-probing b [] s h = refl
asks-probing b (c ∷ cs) s h =
    let (none_now, still) = probing-stays b c s h in
    omega (arith, none_now, asks-probing b cs (call_tool b c s).breaker still)

-- If a breaker is open, its cooldown has passed, no probe is under way, and the gate raises on the call
-- that becomes the probe, then every later call is refused without a question to the gate, however many
-- they are, whenever they come and whatever the gate would answer.
pub asks-raised :
    (b : Bounds) (u : ℕ) (probe : Call) (cs : List Call) (s : Breaker)
    → s.probing ≡ false
    → s.open_until ≡ some u
    → u ≤ probe.now
    → probe.answer ≡ raised
    → asks b cs (call_tool b probe s).breaker ≡ 0
asks-raised b u probe cs s p h late e =
    asks-probing b cs (call_tool b probe s).breaker
      (unfold call_tool breaker_denies ask_gate in simp (p, h, e) ground arith)

hook-unread :
    (b : Bounds) (c : Call) (a : Answer) (s : Breaker)
    → ask_gate b (record c { hook = hook_returned false }) a s
      ≡ ask_gate b (record c { hook = hook_returned true }) a s
unfolding ask_gate reconcile
hook-unread b c timed_out s = refl
hook-unread b c raised s = refl
hook-unread b c (answered v) s = refl

-- What the adapter reports of a denial that it was to record is not read: a call during which the hook
-- returns False, as it does when nothing could be written, has the same outcome, with the same flag
-- `reconciled`, as one during which it returns True.
pub call_tool-hook_returned :
    (b : Bounds) (c : Call) (s : Breaker)
    → call_tool b (record c { hook = hook_returned false }) s
      ≡ call_tool b (record c { hook = hook_returned true }) s
unfolding call_tool reconcile
call_tool-hook_returned b c s = simp (hook-unread b c c.answer (breaker_denies b c.now s).1) refl
