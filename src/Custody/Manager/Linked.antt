-- ===== src/Custody/Manager/Linked.antt =====
-- custos/custody.py: the anchors that `_emit` writes form one chain per tenant in every memory sink that
-- has accepted them all, and an attempt that fails is kept as a gap.
use custos_core.Common.{
  ℕ, ◌+◌, ◌++◌, String, ◌≡◌, refl, ap, true, false, Option, none, some, List, [], ◌∷◌, arith, inl,
  inr, Bool-cases, eq_iff, str_eq, str_eq_refl, All, if◌then◌else◌,
}
use custos_core.Common.Dict.{lookup-insert}
use custos_core.Audit.Record.{Library}
use custos_core.Custody.Anchor.{
  Gap, AnchorRecord, AnchorEntry, head, policy_commit, compute_hash, heads_of,
}
use custos_core.Custody.Sink.{MemorySink, append}
use custos_core.Custody.Manager.{
  Manager, TenantState, genesis_anchor_hash, tenant_state, append_all, failed_sinks, next_anchor,
  anchored, emit, error_of, grown_gap,
}
use custos_core.Custody.Verify.{anchor_chain}

-- The head anchors of one tenant.
abbrev pub of_tenant : String → List AnchorRecord → List AnchorRecord
of_tenant t [] = []
of_tenant t (a ∷ anchors) =
    if str_eq a.tenant_id t then a ∷ of_tenant t anchors else of_tenant t anchors

abbrev pub tenant_heads : String → List AnchorEntry → List AnchorRecord
tenant_heads t log = of_tenant t (heads_of log)

-- The loop of P3 over one anchor more.
anchor_chain-append :
    (lib : Library) (e : ℕ) (p : String) (anchors : List AnchorRecord) (a : AnchorRecord) (e' : ℕ)
    (p' : String)
    → anchor_chain lib e p anchors ≡ some (e', p')
    → a.epoch ≡ e' + 1
    → a.prev_anchor_hash ≡ p'
    → a.anchor_hash ≡ compute_hash lib a
    → anchor_chain lib e p (anchors ++ a ∷ []) ≡ some (a.epoch, a.anchor_hash)
unfolding anchor_chain
anchor_chain-append lib e p [] a e' p' h ep lk hs =
    ground (arith, eq_iff a.prev_anchor_hash p, eq_iff a.anchor_hash (compute_hash lib a))
anchor_chain-append lib e p (b ∷ anchors) a e' p' h ep lk hs =
    ground (arith, anchor_chain-append lib b.epoch b.anchor_hash anchors a e' p')

heads_of-append :
    (log : List AnchorEntry) (a : AnchorRecord)
    → heads_of (log ++ head a ∷ []) ≡ heads_of log ++ a ∷ []
unfolding heads_of
heads_of-append [] a = refl
heads_of-append (head b ∷ log) a = ap (◌∷◌ b) (heads_of-append log a)
heads_of-append (policy_commit c ∷ log) a = heads_of-append log a

of_tenant-append :
    (t : String) (anchors : List AnchorRecord) (a : AnchorRecord)
    → of_tenant t (anchors ++ a ∷ [])
      ≡ (if str_eq a.tenant_id t then of_tenant t anchors ++ a ∷ [] else of_tenant t anchors)
of_tenant-append t [] a = refl
of_tenant-append t (b ∷ anchors) a = ground (arith, of_tenant-append t anchors a)

-- The attempts of a gap, none if there is no gap.
abbrev pub attempts : Option Gap → ℕ
attempts none = 0
attempts (some g) = g.attempts

-- A sink holds an unbroken chain for the tenant, from the genesis hash to the manager's state.
abbrev pub IsLinked : Library → String → TenantState → MemorySink → Type 0
IsLinked lib t st s =
    anchor_chain lib 0 genesis_anchor_hash (tenant_heads t s.anchors)
    ≡ some (st.epoch, st.anchor_hash)

abbrev pub AllLinked : Library → String → Manager → Type 0
AllLinked lib t m = All (IsLinked lib t (tenant_state t m)) m.sinks

abbrev pub Accepting : MemorySink → Type 0
Accepting s = s.failing ≡ false

module _ (lib : Library) (t : String) (a : AnchorRecord) (s : MemorySink) (st : TenantState) where
  append-IsLinked :
      Accepting s
      → a.tenant_id ≡ t
      → a.epoch ≡ st.epoch + 1
      → a.prev_anchor_hash ≡ st.anchor_hash
      → a.anchor_hash ≡ compute_hash lib a
      → IsLinked lib t st s
      → IsLinked lib t (anchored st a []) (append (head a) s).0
  unfolding append
  append-IsLinked up own ep lk hs h =
      rw (up, heads_of-append s.anchors a, of_tenant-append t (heads_of s.anchors) a)
        (rw ((eq_iff a.tenant_id t).1 own) (
          anchor_chain-append lib 0 genesis_anchor_hash (tenant_heads t s.anchors) a st.epoch
            st.anchor_hash h ep lk hs))

  append-other :
      Accepting s
      → str_eq a.tenant_id t ≡ false
      → IsLinked lib t st s
      → IsLinked lib t st (append (head a) s).0
  unfolding append
  append-other up other h =
      rw (up, heads_of-append s.anchors a, of_tenant-append t (heads_of s.anchors) a) (rw other h)

pub failed_sinks-nil :
    (entry : AnchorEntry) (sinks : List MemorySink)
    → All Accepting sinks
    → failed_sinks entry sinks ≡ []
unfolding failed_sinks append
failed_sinks-nil entry [] h = refl
failed_sinks-nil entry (s ∷ sinks) h = ground (arith, failed_sinks-nil entry sinks h.1)

module _ (lib : Library) (t : String) (a : AnchorRecord) (st : TenantState) where
  append_all-IsLinked :
      (sinks : List MemorySink)
      → All Accepting sinks
      → a.tenant_id ≡ t
      → a.epoch ≡ st.epoch + 1
      → a.prev_anchor_hash ≡ st.anchor_hash
      → a.anchor_hash ≡ compute_hash lib a
      → All (IsLinked lib t st) sinks
      → All (IsLinked lib t (anchored st a [])) (append_all (head a) sinks)
  unfolding append_all
  append_all-IsLinked [] up own ep lk hs h = tt
  append_all-IsLinked (s ∷ sinks) up own ep lk hs h = (
    append-IsLinked lib t a s st up.0 own ep lk hs h.0,
    append_all-IsLinked sinks up.1 own ep lk hs h.1,
  )

  append_all-other :
      (sinks : List MemorySink)
      → All Accepting sinks
      → str_eq a.tenant_id t ≡ false
      → All (IsLinked lib t st) sinks
      → All (IsLinked lib t st) (append_all (head a) sinks)
  unfolding append_all
  append_all-other [] up other h = tt
  append_all-other (s ∷ sinks) up other h =
      (append-other lib t a s st up.0 other h.0, append_all-other sinks up.1 other h.1)

next_anchor-hash :
    (lib : Library) (st : TenantState) (t : String) (n : ℕ) (h now : String)
    → let a = next_anchor lib st t n h now in a.anchor_hash ≡ compute_hash lib a
unfolding compute_hash
next_anchor-hash lib st t n h now = refl

-- How a tenant's state and the last error stand after an attempt, by the sinks that refused it.
abbrev pub Outcome :
    TenantState → ℕ → String → TenantState → Option (List String) → List String → Type 0
Outcome st n hash st' error [] =
    (st'.epoch ≡ st.epoch + 1)
    × (st'.chain_length ≡ n)
    × (st'.anchor_hash ≡ hash)
    × (st'.pending_gap ≡ none)
    × (error ≡ none)
Outcome st n hash st' error (e ∷ es) =
    (st'.epoch ≡ st.epoch)
    × (st'.chain_length ≡ st.chain_length)
    × (st'.anchor_hash ≡ st.anchor_hash)
    × (attempts st'.pending_gap ≡ attempts st.pending_gap + 1)
    × (error ≡ some (e ∷ es))

attempts-grown :
    (g : Option Gap) (a : AnchorRecord) → attempts (some (grown_gap g a)) ≡ attempts g + 1
attempts-grown none a = omega arith
attempts-grown (some g) a = refl

anchored-Outcome :
    (lib : Library) (st : TenantState) (t : String) (n : ℕ) (h now : String) (es : List String)
    → let a = next_anchor lib st t n h now in
      Outcome st n (compute_hash lib a) (anchored st a es) (error_of es) es
anchored-Outcome lib st t n h now [] = (refl, refl, next_anchor-hash lib st t n h now, refl, refl)
anchored-Outcome lib st t n h now (e ∷ es) =
    (refl, refl, refl, attempts-grown st.pending_gap (next_anchor lib st t n h now), refl)

module _ (lib : Library) (u : String) (n : ℕ) (h now : String) (m : Manager) where
  abbrev new_anchor : AnchorRecord
  new_anchor = next_anchor lib (tenant_state u m) u n h now

  pub tenant_state-emit :
      (t : String)
      → tenant_state t (emit lib u n h now m) ≡ (
          if str_eq u t
          then anchored (tenant_state u m) new_anchor (failed_sinks (head new_anchor) m.sinks)
          else tenant_state t m)
  unfolding tenant_state emit
  tenant_state-emit t = rw lookup-insert (ground arith)

  own_tenant :
      (t : String)
      → str_eq u t ≡ true
      → All Accepting m.sinks
      → AllLinked lib t m
      → AllLinked lib t (emit lib u n h now m)
  own_tenant t same up linked =
      let e = (eq_iff u t).0 same in
      let linked' : All (IsLinked lib t (tenant_state u m)) m.sinks = simp e linked in
      rw (tenant_state-emit t, same, failed_sinks-nil (head new_anchor) m.sinks up)
        (unfold emit in
          append_all-IsLinked lib t new_anchor (tenant_state u m) m.sinks up e refl refl
            (next_anchor-hash lib (tenant_state u m) u n h now) linked')

  other_tenant :
      (t : String)
      → str_eq u t ≡ false
      → All Accepting m.sinks
      → AllLinked lib t m
      → AllLinked lib t (emit lib u n h now m)
  other_tenant t other up linked =
      rw (tenant_state-emit t, other)
        (unfold emit in
          append_all-other lib t new_anchor (tenant_state t m) m.sinks up other linked)

  -- For a manager of memory sinks that all accept: if each sink holds for a tenant one unbroken chain of anchors,
  -- from the genesis hash to the state that the manager keeps of it, then an emission, for that tenant or another,
  -- leaves it so.
  pub emit-AllLinked :
      (t : String)
      → All Accepting m.sinks
      → AllLinked lib t m
      → AllLinked lib t (emit lib u n h now m)
  emit-AllLinked t up linked = elim (Bool-cases (str_eq u t)) [
    | inl same ↦ own_tenant t same up linked
    | inr other ↦ other_tenant t other up linked
  ]

  -- If no sink refuses the anchor, the tenant's epoch goes up by one, its state is that of the anchor,
  -- and neither a gap nor an error is left. If some refuse, the epoch, the anchored length and the
  -- anchor hash stay, the gap has one attempt more, and the error names the sinks that refused.
  pub emit-Outcome :
      Outcome
        (tenant_state u m)
        n
        (compute_hash lib new_anchor)
        (tenant_state u (emit lib u n h now m))
        (emit lib u n h now m).last_error
        (failed_sinks (head new_anchor) m.sinks)
  emit-Outcome =
      rw (tenant_state-emit u, str_eq_refl u)
        (unfold emit in
          anchored-Outcome lib (tenant_state u m) u n h now
            (failed_sinks (head new_anchor) m.sinks))
