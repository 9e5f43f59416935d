-- ===== src/Replay.antt =====
-- custos/replay.py and custos/policy_diff.py: deciding a recorded content again, and deciding by two rule sets;
-- and the handler of /v1/replay in main.py. The texts of previews and summaries are not modelled.
pub mod Reproduced
use custos_core.Common.{
  ℕ, String, Bool, true, false, ◌&&◌, ◌||◌, not, Option, none, some, List, [], ◌∷◌, str_eq, Result,
  ok, err, if◌then◌else◌,
}
use custos_core.Audit.Record.{AuditRecord, AuditError, Library, commitment_none}
use custos_core.Audit.Chain.{Chain, Entry, Moment, record_entry}
use custos_core.Policy.Rule.{PolicyAction, action_value, PolicyRule, PolicyResult, Search}
use custos_core.Policy.Engine.{evaluate}

pub record ReplayResult : Type 0 where
  pub original_record_hash : String
  pub original_timestamp : ℕ
  pub original_action : String
  pub original_triggered_rule : Option String
  pub original_reason : String
  pub original_trace_id : Option String
  pub replayed_action : String
  pub replayed_triggered_rule : Option String
  pub replayed_reason : String
  pub decision_matches : Bool
  pub replay_timestamp : ℕ
  pub content_hash : String

-- The two ValueErrors.
pub data ReplayError : Type 0 where
  record_not_found content_mismatch : ReplayError

-- `_find_record`
unfoldable pub find_record : String → List AuditRecord → Option AuditRecord
find_record hash [] = none
find_record hash (r ∷ rs) = if str_eq r.record_hash hash then some r else find_record hash rs

-- Equality of two optional texts.
abbrev pub same_rule : Option String → Option String → Bool
same_rule none none = true
same_rule (some a) (some b) = str_eq a b
same_rule _ _ = false

-- The result for a record and the decision made again.
abbrev pub replayed : ℕ → AuditRecord → PolicyResult → ReplayResult
replayed now r d = record {
  original_record_hash = r.record_hash;
  original_timestamp = r.timestamp;
  original_action = r.action;
  original_triggered_rule = r.triggered_rule;
  original_reason = r.reason;
  original_trace_id = r.trace_id;
  replayed_action = action_value d.action;
  replayed_triggered_rule = d.triggered_rule;
  replayed_reason = d.reason;
  decision_matches =
      str_eq (action_value d.action) r.action && same_rule d.triggered_rule r.triggered_rule;
  replay_timestamp = now;
  content_hash = r.content_hash;
}

-- `replay_by_hash`, with the engine's `evaluate`.
unfoldable pub replay_by_hash :
    Library
    → ℕ
    → (String → PolicyResult)
    → (hash content : String) → Chain
    → Result ReplayError ReplayResult
replay_by_hash lib now decide hash content c = elim (find_record hash c.records) [
  | none ↦ err record_not_found
  | some r ↦
      if not (str_eq (lib.sha256 content) r.content_hash)
      then err content_mismatch
      else ok (replayed now r (decide content))
]

-- The entry that /v1/replay records.
abbrev pub replay_entry : (reason content : String) → Entry
replay_entry reason content = record {
  client_id = "system";
  action = "replay";
  reason = reason;
  content = content;
  triggered_rule = none;
  trace_id = none;
  policy_digest = none;
  tenant_id = none;
  commitment = commitment_none;
}

-- How the handler ends: a response, a 404, or an exception of the chain.
pub data ReplayReply : Type 0 where
  replay_response : ReplayResult → ReplayReply
  not_found : ReplayError → ReplayReply
  replay_raised : AuditError → ReplayReply

abbrev pub replay_reply : ReplayResult → Result AuditError AuditRecord → ReplayReply
replay_reply y (ok r) = replay_response y
replay_reply y (err e) = replay_raised e

-- The handler for the chain and the engine of a known tenant, with the text of its reason.
unfoldable pub replay :
    Library
    → Moment
    → (String → PolicyResult)
    → (reason hash content : String) → Chain
    → List AuditRecord
    → ReplayReply × Chain × List AuditRecord
replay lib m decide reason hash content c rows =
    elim (replay_by_hash lib m.now decide hash content c) [
      | err e ↦ (not_found e, c, rows)
      | ok y ↦
          let (r, c', rows') = record_entry lib m (replay_entry reason content) c rows in
          (replay_reply y r, c', rows')
    ]

pub record DiffResult : Type 0 where
  pub current : PolicyResult
  pub proposed : PolicyResult
  pub decision_changed : Bool

-- `PolicyDiffer.diff`
unfoldable pub diff :
    Search → String → (current_rules proposed_rules : List PolicyRule) → DiffResult
diff search content current_rules proposed_rules =
    let current = evaluate search current_rules content in
    let proposed = evaluate search proposed_rules content in
    record {
      current = current;
      proposed = proposed;
      decision_changed =
          not (str_eq (action_value current.action) (action_value proposed.action))
          || not (same_rule current.triggered_rule proposed.triggered_rule);
    }
