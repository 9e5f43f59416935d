-- ===== src/Tests/Custody.antt =====
-- Custody at concrete inputs.
use custos_core.Common.{◌≡◌, ◌⊎◌, inl, refl, false, none, [], ◌∷◌, take, length, sort_by}
use custos_core.Common.Dict.{lookup}
use custos_core.Audit.Record.{compute_record_hash, preimage_fields}
use custos_core.Audit.Chain.{genesis_hash}
use custos_core.Audit.Chain.Evidence.{Collision, SameHistory}
use custos_core.Custody.Anchor.{AnchorRecord, PolicyCommitRecord, head, policy_commit, heads_of}
use custos_core.Custody.Sink.{MemorySink, git_append, load_anchors}
use custos_core.Custody.Sink.Overwrite.{next_commit-overwrites}
use custos_core.Custody.Manager.{
  Manager, Commitment, genesis_anchor_hash, tenant_state, policy_state_of, next_anchor, next_commit,
  emit,
}
use custos_core.Custody.Manager.Linked.{AllLinked, emit-AllLinked}
use custos_core.Custody.Verify.{rewalk, heads_match, anchor_chain, report, verify_custody}
use custos_core.Custody.Verify.Tamper.{Accepts, verify_custody-SameHistory}
use custos_core.Tests.Toy.{toy, first_record}

abbrev anchor : AnchorRecord
anchor = record {
  tenant_id = "acme";
  epoch = 1;
  chain_length = 1;
  head_hash = first_record.record_hash;
  anchored_at_utc = "now";
  prev_anchor_hash = genesis_anchor_hash;
  gap = none;
  anchor_hash = "x";
}

accepted : Accepts toy (first_record ∷ []) (head anchor ∷ [])
unfolding verify_custody report rewalk heads_match heads_of compute_record_hash preimage_fields
    sort_by
accepted = (_, refl, refl, refl)

verify_custody-SameHistory_example :
    Collision toy (take 1 (first_record ∷ [])) (take 1 (first_record ∷ []))
    ⊎ (SameHistory genesis_hash genesis_hash
          (take 1 (first_record ∷ []))
          (take 1 (first_record ∷ []))
        × (length (take 1 (first_record ∷ [])) ≡ 1)
        × (length (take 1 (first_record ∷ [])) ≡ 1))
unfolding heads_of
verify_custody-SameHistory_example =
    verify_custody-SameHistory toy (first_record ∷ []) (first_record ∷ []) (head anchor ∷ []) anchor
      accepted accepted (inl refl)

abbrev sink : MemorySink
sink = record { name = "memory"; anchors = []; failing = false }

abbrev change : Commitment
change = record { tenant_id = "acme"; digest = "d1"; canonical_json = "d1" }

abbrev manager : Manager
manager = record {
  sinks = sink ∷ sink ∷ [];
  anchor_n = 50;
  state = [];
  policy_state = [];
  policy_queue = change ∷ [];
  last_error = none;
}

abbrev first_anchor : AnchorRecord
first_anchor = next_anchor toy (tenant_state "acme" manager) "acme" 1 "h1" "now"

abbrev first_commit : PolicyCommitRecord
first_commit = next_commit toy (policy_state_of "acme" manager) change "later"

next_commit-overwrites_example :
    (first_anchor.epoch ≡ 1)
    × (first_commit.epoch ≡ 1)
    × (load_anchors (git_append (policy_commit first_commit) (git_append (head first_anchor) []))
        ≡ load_anchors (git_append (policy_commit first_commit) []))
unfolding lookup
next_commit-overwrites_example =
    next_commit-overwrites toy manager change 1 "h1" "now" "later" [] refl refl

emit-AllLinked_example :
    AllLinked toy "acme" (emit toy "acme" 1 first_record.record_hash "now" manager)
unfolding anchor_chain heads_of tenant_state lookup
emit-AllLinked_example =
    emit-AllLinked toy "acme" 1 first_record.record_hash "now" manager "acme" (refl, (refl, tt))
      (refl, (refl, tt))
