-- ===== src/Custody/Anchor.antt =====
-- custos/custody.py: anchor records, policy commits and their hashes. An entry of the external log is
-- one of the two, as its `kind` says. Epochs and lengths are natural numbers.
use custos_core.Common.{ℕ, String, Option, none, some, List, [], ◌∷◌}
use custos_core.Audit.Record.{Json, null, number, text, gap_object, Library}

-- The dictionary under `gap`.
pub record Gap : Type 0 where
  pub from_epoch : ℕ
  pub attempts : ℕ
  pub first_attempt_utc : String
  pub last_attempt_utc : String

pub record AnchorRecord : Type 0 where
  pub tenant_id : String
  pub epoch : ℕ
  pub chain_length : ℕ
  pub head_hash : String
  pub anchored_at_utc : String
  pub prev_anchor_hash : String
  pub gap : Option Gap
  pub anchor_hash : String

pub record PolicyCommitRecord : Type 0 where
  pub tenant_id : String
  pub epoch : ℕ
  pub chain_length : ℕ
  pub head_hash : String
  pub anchored_at_utc : String
  pub prev_anchor_hash : String
  pub canonical_json : String
  pub anchor_hash : String

pub data AnchorEntry : Type 0 where
  head : AnchorRecord → AnchorEntry
  policy_commit : PolicyCommitRecord → AnchorEntry

abbrev pub gap_json : Option Gap → Json
gap_json none = null
gap_json (some g) = gap_object g.from_epoch g.attempts g.first_attempt_utc g.last_attempt_utc

-- `AnchorRecord.compute_hash`
unfoldable pub compute_hash : Library → AnchorRecord → String
compute_hash lib a = lib.sha256 (
    lib.dumps (
      ("tenant_id", text a.tenant_id)
      ∷ ("epoch", number a.epoch)
      ∷ ("chain_length", number a.chain_length)
      ∷ ("head_hash", text a.head_hash)
      ∷ ("anchored_at_utc", text a.anchored_at_utc)
      ∷ ("prev_anchor_hash", text a.prev_anchor_hash)
      ∷ ("gap", gap_json a.gap)
      ∷ []))

-- `PolicyCommitRecord.compute_hash`
unfoldable pub commit_hash : Library → PolicyCommitRecord → String
commit_hash lib c = lib.sha256 (
    lib.dumps (
      ("tenant_id", text c.tenant_id)
      ∷ ("epoch", number c.epoch)
      ∷ ("head_hash", text c.head_hash)
      ∷ ("anchored_at_utc", text c.anchored_at_utc)
      ∷ ("prev_anchor_hash", text c.prev_anchor_hash)
      ∷ ("kind", text "policy_commit")
      ∷ ("canonical_json", text c.canonical_json)
      ∷ []))

abbrev pub entry_tenant : AnchorEntry → String
entry_tenant (head a) = a.tenant_id
entry_tenant (policy_commit c) = c.tenant_id

abbrev pub entry_epoch : AnchorEntry → ℕ
entry_epoch (head a) = a.epoch
entry_epoch (policy_commit c) = c.epoch

-- `[a for a in anchors if a.get("kind") != "policy_commit"]`
unfoldable pub heads_of : List AnchorEntry → List AnchorRecord
heads_of [] = []
heads_of (head a ∷ log) = a ∷ heads_of log
heads_of (policy_commit c ∷ log) = heads_of log

-- `[a for a in anchors if a.get("kind") == "policy_commit"]`
unfoldable pub commits_of : List AnchorEntry → List PolicyCommitRecord
commits_of [] = []
commits_of (head a ∷ log) = commits_of log
commits_of (policy_commit c ∷ log) = c ∷ commits_of log
