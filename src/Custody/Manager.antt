-- ===== src/Custody/Manager.antt =====
-- custos/custody.py: `class AnchorManager`, each method as a function of the manager. A tenant's state is
-- made at its first use, as `_tenant_state` and `setdefault` do. The sinks are memory sinks, each failing
-- or not, and the git sink is apart in Custody/Sink; the lock makes every method one step, and the background thread is a caller of `anchor_due`.
pub mod Linked
pub mod Queue
use custos_core.Common.{
  ℕ, ◌+◌, ◌-◌, ◌++◌, String, Bool, true, false, ◌&&◌, ◌||◌, not, Option, none, some, List, [], ◌∷◌,
  leb, if◌then◌else◌,
}
use custos_core.Common.Dict.{Dict, lookup, insert}
use custos_core.Audit.Record.{Library}
use custos_core.Custody.Anchor.{
  Gap, AnchorRecord, PolicyCommitRecord, AnchorEntry, head, policy_commit, compute_hash,
  commit_hash,
}
use custos_core.Custody.Sink.{MemorySink, append, healthcheck}

-- GENESIS_ANCHOR_HASH, sixty-four zeros.
abbrev pub genesis_anchor_hash : String
genesis_anchor_hash = "0000000000000000000000000000000000000000000000000000000000000000"

pub record TenantState : Type 0 where
  pub epoch : ℕ
  pub chain_length : ℕ
  pub anchor_hash : String
  pub last_anchor_utc : Option String
  pub pending_gap : Option Gap

pub record PolicyState : Type 0 where
  pub epoch : ℕ
  pub anchor_hash : String

-- A queued policy commit: tenant, digest, canonical JSON.
pub record Commitment : Type 0 where
  pub tenant_id : String
  pub digest : String
  pub canonical_json : String

-- `last_error` holds the names of the sinks that the last error message joins.
pub record Manager : Type 0 where
  pub sinks : List MemorySink
  pub anchor_n : ℕ
  pub state : Dict TenantState
  pub policy_state : Dict PolicyState
  pub policy_queue : List Commitment
  pub last_error : Option (List String)

abbrev pub fresh_tenant : TenantState
fresh_tenant = record {
  epoch = 0;
  chain_length = 0;
  anchor_hash = genesis_anchor_hash;
  last_anchor_utc = none;
  pending_gap = none;
}

abbrev pub fresh_policy : PolicyState
fresh_policy = record { epoch = 0; anchor_hash = genesis_anchor_hash }

abbrev or_fresh : {A : Type 0} → A → Option A → A
or_fresh d none = d
or_fresh d (some a) = a

-- `_tenant_state`
unfoldable pub tenant_state : String → Manager → TenantState
tenant_state t m = or_fresh fresh_tenant (lookup t m.state)

unfoldable pub policy_state_of : String → Manager → PolicyState
policy_state_of t m = or_fresh fresh_policy (lookup t m.policy_state)

-- The loop `for sink in self._sinks: try: sink.append(…)`, and the names of the sinks that raised.
unfoldable pub append_all : AnchorEntry → List MemorySink → List MemorySink
append_all entry [] = []
append_all entry (s ∷ ss) = (append entry s).0 ∷ append_all entry ss

unfoldable pub failed_sinks : AnchorEntry → List MemorySink → List String
failed_sinks entry [] = []
failed_sinks entry (s ∷ ss) =
    let rest = failed_sinks entry ss in if (append entry s).1 then rest else s.name ∷ rest

abbrev pub next_anchor : Library → TenantState → String → ℕ → String → String → AnchorRecord
next_anchor lib st tenant n head_hash now =
    let a : AnchorRecord = record {
      tenant_id = tenant;
      epoch = st.epoch + 1;
      chain_length = n;
      head_hash = head_hash;
      anchored_at_utc = now;
      prev_anchor_hash = st.anchor_hash;
      gap = st.pending_gap;
      anchor_hash = "";
    } in
    record a { anchor_hash = compute_hash lib a }

-- `gap = st["pending_gap"] or {…}`, with one attempt more.
abbrev grown_gap : Option Gap → AnchorRecord → Gap
grown_gap none a = record {
  from_epoch = a.epoch;
  attempts = 1;
  first_attempt_utc = a.anchored_at_utc;
  last_attempt_utc = a.anchored_at_utc;
}
grown_gap (some g) a = record g { attempts = g.attempts + 1; last_attempt_utc = a.anchored_at_utc }

-- The state after an attempt, by the sinks that failed.
abbrev pub anchored : TenantState → AnchorRecord → List String → TenantState
anchored st a [] = record {
  epoch = a.epoch;
  chain_length = a.chain_length;
  anchor_hash = a.anchor_hash;
  last_anchor_utc = some a.anchored_at_utc;
  pending_gap = none;
}
anchored st a (e ∷ es) = record st { pending_gap = some (grown_gap st.pending_gap a) }

abbrev pub error_of : List String → Option (List String)
error_of [] = none
error_of (e ∷ es) = some (e ∷ es)

-- `_emit`
unfoldable pub emit : Library → String → ℕ → String → String → Manager → Manager
emit lib tenant n head_hash now m =
    let st = tenant_state tenant m in
    let a = next_anchor lib st tenant n head_hash now in
    let errors = failed_sinks (head a) m.sinks in
    record m {
      sinks = append_all (head a) m.sinks;
      state = insert tenant (anchored st a errors) m.state;
      last_error = error_of errors;
    }

abbrev pub next_commit : Library → PolicyState → Commitment → String → PolicyCommitRecord
next_commit lib st c now =
    let p : PolicyCommitRecord = record {
      tenant_id = c.tenant_id;
      epoch = st.epoch + 1;
      chain_length = 0;
      head_hash = c.digest;
      anchored_at_utc = now;
      prev_anchor_hash = st.anchor_hash;
      canonical_json = c.canonical_json;
      anchor_hash = "";
    } in
    record p { anchor_hash = commit_hash lib p }

abbrev committed : PolicyState → PolicyCommitRecord → List String → PolicyState
committed st p [] = record { epoch = st.epoch + 1; anchor_hash = p.anchor_hash }
committed st p (e ∷ es) = st

abbrev no_error : List String → Bool
no_error [] = true
no_error (e ∷ es) = false

-- An error is recorded, and a success leaves the last one.
abbrev error_or : Option (List String) → List String → Option (List String)
error_or old [] = old
error_or old (e ∷ es) = some (e ∷ es)

-- `_emit_policy_commit`: the manager, and whether the commit landed in every sink.
unfoldable pub emit_policy_commit : Library → String → Commitment → Manager → Manager × Bool
emit_policy_commit lib now c m =
    let st = policy_state_of c.tenant_id m in
    let p = next_commit lib st c now in
    let errors = failed_sinks (policy_commit p) m.sinks in
    (
      record m {
        sinks = append_all (policy_commit p) m.sinks;
        policy_state = insert c.tenant_id (committed st p errors) m.policy_state;
        last_error = error_or m.last_error errors;
      },
      no_error errors,
    )

-- `anchor_policy_commit`
unfoldable pub anchor_policy_commit : Commitment → Manager → Manager
anchor_policy_commit c m = record m { policy_queue = m.policy_queue ++ c ∷ [] }

-- The loop of `drain_policy_commits` over what the queue holds: the manager and the commits that failed.
unfoldable pub drain_from : Library → String → List Commitment → Manager → Manager × List Commitment
drain_from lib now [] m = (m, [])
drain_from lib now (c ∷ queue) m =
    let (m', landed) = emit_policy_commit lib now c m in
    let (m'', failed) = drain_from lib now queue m' in (m'', if landed then failed else c ∷ failed)

abbrev is_empty : List Commitment → Bool
is_empty [] = true
is_empty (c ∷ cs) = false

-- `drain_policy_commits`: what failed goes back to the queue.
unfoldable pub drain_policy_commits : Library → String → Manager → Manager × Bool
unfolding drain_from
drain_policy_commits lib now m =
    let (m', failed) = drain_from lib now m.policy_queue (record m { policy_queue = [] }) in
    (record m' { policy_queue = failed }, is_empty failed)

-- A chain that `get_chains` returns: tenant, length, head hash.
pub record ChainHead : Type 0 where
  pub tenant_id : String
  pub chain_length : ℕ
  pub head_hash : String

-- The loop of `anchor_due`. `anchor_n` is at least 1.
unfoldable pub anchor_chains : Library → Bool → String → List ChainHead → Manager → Manager
anchor_chains lib force now [] m = m
anchor_chains lib force now (c ∷ cs) m =
    let due =
      force || leb m.anchor_n (c.chain_length - (tenant_state c.tenant_id m).chain_length) in
    anchor_chains lib force now cs
      (if due then emit lib c.tenant_id c.chain_length c.head_hash now m else m)

-- `anchor_due`
unfoldable pub anchor_due : Library → Bool → String → List ChainHead → Manager → Manager
anchor_due lib force now chains m =
    anchor_chains lib force now chains (drain_policy_commits lib now m).0

all_healthy : List MemorySink → Bool
all_healthy [] = true
all_healthy (s ∷ ss) = healthcheck s && all_healthy ss

-- `health()["sinks_healthy"]`
pub sinks_healthy : Manager → Bool
unfolding all_healthy
sinks_healthy m = elim m.sinks [ [] ↦ false | s ∷ ss ↦ all_healthy (s ∷ ss) ]
