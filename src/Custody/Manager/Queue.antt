-- ===== src/Custody/Manager/Queue.antt =====
-- custos/custody.py: draining the queue of policy commits loses none.
use custos_core.Common.{◌++◌, String, ◌≡◌, refl, true, List, [], ◌∷◌, arith, All}
use mathlib.Core.List.{append-nil, append_assoc}
use custos_core.Audit.Record.{Library}
use custos_core.Custody.Anchor.{AnchorEntry, policy_commit, commits_of, PolicyCommitRecord}
use custos_core.Custody.Sink.{MemorySink, append}
use custos_core.Custody.Manager.{
  Commitment, Manager, emit_policy_commit, drain_from, drain_policy_commits, append_all,
  next_commit, policy_state_of,
}
use custos_core.Custody.Manager.Linked.{Accepting, failed_sinks-nil}

append_all-Accepting :
    (entry : AnchorEntry) (sinks : List MemorySink)
    → All Accepting sinks
    → All Accepting (append_all entry sinks)
unfolding append_all append
append_all-Accepting entry [] h = tt
append_all-Accepting entry (s ∷ sinks) h =
    (ground (arith, h.0), append_all-Accepting entry sinks h.1)

-- A commit that the policy chain of its sinks carries: tenant, digest and canonical text.
abbrev pub payload : PolicyCommitRecord → Commitment
payload p = record {
  tenant_id = p.tenant_id;
  digest = p.head_hash;
  canonical_json = p.canonical_json;
}

abbrev pub payloads : List PolicyCommitRecord → List Commitment
payloads [] = []
payloads (p ∷ ps) = payload p ∷ payloads ps

commits_of-append :
    (log : List AnchorEntry) (p : PolicyCommitRecord)
    → payloads (commits_of (log ++ policy_commit p ∷ []))
      ≡ payloads (commits_of log) ++ payload p ∷ []
unfolding commits_of
commits_of-append [] p = refl
commits_of-append (AnchorEntry.head a ∷ log) p = commits_of-append log p
commits_of-append (policy_commit c ∷ log) p = rw (commits_of-append log p)

-- Every sink carries these commitments, in this order.
abbrev pub Carries : List Commitment → MemorySink → Type 0
Carries cs s = payloads (commits_of s.anchors) ≡ cs

append_all-Carries :
    (p : PolicyCommitRecord) (sinks : List MemorySink) (cs : List Commitment)
    → All Accepting sinks
    → All (Carries cs) sinks
    → All (Carries (cs ++ payload p ∷ [])) (append_all (policy_commit p) sinks)
unfolding append_all append
append_all-Carries p [] cs up h = tt
append_all-Carries p (s ∷ sinks) cs up h =
    (rw up.0 (rw (commits_of-append s.anchors p, h.0)), append_all-Carries p sinks cs up.1 h.1)

module _ (lib : Library) (now : String) (c : Commitment) (m : Manager)
    (up : All Accepting m.sinks) where
  emit_policy_commit-landed : (emit_policy_commit lib now c m).1 ≡ true
  unfolding emit_policy_commit
  emit_policy_commit-landed = rw (
      failed_sinks-nil (policy_commit (next_commit lib (policy_state_of c.tenant_id m) c now))
        m.sinks up)

  emit_policy_commit-Accepting : All Accepting (emit_policy_commit lib now c m).0.sinks
  unfolding emit_policy_commit
  emit_policy_commit-Accepting = append_all-Accepting _ m.sinks up

  emit_policy_commit-Carries :
      (cs : List Commitment)
      → All (Carries cs) m.sinks
      → All (Carries (cs ++ c ∷ [])) (emit_policy_commit lib now c m).0.sinks
  unfolding emit_policy_commit
  emit_policy_commit-Carries cs h =
      append_all-Carries (next_commit lib (policy_state_of c.tenant_id m) c now) m.sinks cs up h

drain_from-Carries :
    (lib : Library) (now : String) (queue cs : List Commitment) (m : Manager)
    → All Accepting m.sinks
    → All (Carries cs) m.sinks
    → let (m', failed) = drain_from lib now queue m in
      All (Carries (cs ++ queue)) m'.sinks × (failed ≡ [])
unfolding drain_from
drain_from-Carries lib now [] cs m up h = (rw append-nil h, refl)
drain_from-Carries lib now (c ∷ queue) cs m up h =
    let (m', landed) = emit_policy_commit lib now c m in
    let (all, none_failed) =
      drain_from-Carries lib now queue (cs ++ c ∷ []) m'
        (emit_policy_commit-Accepting lib now c m up)
        (emit_policy_commit-Carries lib now c m up cs h) in
    (
      rw (append_assoc cs (c ∷ []) queue) at all,
      rw (emit_policy_commit-landed lib now c m up) none_failed,
    )

-- While every sink accepts, a drain empties the queue, answers that all has landed, and appends the
-- queued commitments, unchanged and in their order, to what every sink carries.
pub drain_policy_commits-Carries :
    (lib : Library) (now : String) (cs : List Commitment) (m : Manager)
    → All Accepting m.sinks
    → All (Carries cs) m.sinks
    → let (m', landed) = drain_policy_commits lib now m in
      All (Carries (cs ++ m.policy_queue)) m'.sinks × (m'.policy_queue ≡ []) × (landed ≡ true)
unfolding drain_policy_commits
drain_policy_commits-Carries lib now cs m up h =
    let (all, nothing) =
      drain_from-Carries lib now m.policy_queue cs (record m { policy_queue = [] }) up h in
    (all, nothing, rw nothing)
