-- ===== src/Custody/Verify.antt =====
-- custos/custody.py: `verify_custody`, the external re-walk of a copy of the audit store against the
-- external anchor log. The verdicts are modelled, the messages under `detail` are not.
pub mod Rewalk
pub mod Tamper
pub mod Truncation
use custos_core.Common.{
  ℕ, zero, suc, ◌+◌, String, Bool, true, false, ◌&&◌, not, Option, none, some, List, [], ◌∷◌,
  Result, ok, err, ◌>>=◌, ltb, leb, str_eq, contains, length, get_elem?, is_truthy, or_else,
  sort_by, if◌then◌else◌,
}
use custos_core.Audit.Record.{AuditRecord, AuditError, Library, compute_record_hash}
use custos_core.Custody.Anchor.{
  AnchorRecord, PolicyCommitRecord, AnchorEntry, compute_hash, commit_hash, heads_of, commits_of,
}
use custos_core.Audit.Chain.{genesis_hash}
use custos_core.Custody.Manager.{genesis_anchor_hash}

pub data Verdict : Type 0 where
  established cannot_establish contradiction : Verdict

-- P1: whether the walk met no break, and the recomputed hashes.
abbrev pub Walk : Type 0
Walk = Bool × List String

unfoldable pub rewalk : Library → String → List AuditRecord → Result AuditError Walk
rewalk lib prev [] = ok (true, [])
rewalk lib prev (r ∷ rs) =
    let broken = (do w ← rewalk lib r.record_hash rs; ok (false, r.record_hash ∷ w.1)) in
    if not (str_eq r.previous_hash prev) then broken else do
      expected ← compute_record_hash lib r prev
      w ← rewalk lib expected rs
      ok (str_eq r.record_hash expected && w.0, expected ∷ w.1)

-- P3: the loop over the sorted anchors, from an epoch and a hash; `none` is a break.
unfoldable pub anchor_chain : Library → ℕ → String → List AnchorRecord → Option (ℕ × String)
anchor_chain lib last_epoch prev [] = some (last_epoch, prev)
anchor_chain lib last_epoch prev (a ∷ anchors) =
    let rest = anchor_chain lib a.epoch a.anchor_hash anchors in
    if leb a.epoch last_epoch
    then none
    else if not (str_eq a.prev_anchor_hash prev)
    then none
    else if not (str_eq a.anchor_hash (compute_hash lib a))
    then none
    else rest

-- P2: `recomputed[a.chain_length - 1]`, for a length that the store reaches.
abbrev pub head_at : ℕ → List String → Option String
head_at zero hashes = none
head_at (suc n) hashes = get_elem? hashes n

abbrev same_head : Option String → String → Bool
same_head none h = false
same_head (some x) h = str_eq x h

unfoldable pub heads_match : List String → List AnchorRecord → Bool
heads_match hashes [] = true
heads_match hashes (a ∷ anchors) =
    same_head (head_at a.chain_length hashes) a.head_hash && heads_match hashes anchors

-- P4: `max(a.chain_length for a in anchors)`.
unfoldable pub covered : List AnchorRecord → ℕ
covered [] = 0
covered (a ∷ anchors) =
    let rest = covered anchors in if ltb rest a.chain_length then a.chain_length else rest

-- P5: each policy commit hashes to its hash, and its canonical JSON to the digest that it commits.
unfoldable pub commits_hold : Library → List PolicyCommitRecord → Bool
commits_hold lib [] = true
commits_hold lib (c ∷ cs) =
    str_eq c.anchor_hash (commit_hash lib c)
    && (str_eq (lib.sha256 c.canonical_json) c.head_hash && commits_hold lib cs)

-- P6: the digest is among those anchored for the tenant.
unfoldable pub is_anchored : String → String → List PolicyCommitRecord → Bool
is_anchored tenant digest [] = false
is_anchored tenant digest (c ∷ cs) =
    let rest = is_anchored tenant digest cs in
    if str_eq c.tenant_id tenant && str_eq c.head_hash digest then true else rest

-- `rec.get("policy_digest")` is set.
abbrev pub is_cited : AuditRecord → Bool
is_cited r = is_truthy r.policy_digest

unfoldable pub any_cited : List AuditRecord → Bool
any_cited [] = false
any_cited (r ∷ rs) = let rest = any_cited rs in if is_cited r then true else rest

unfoldable pub citations_anchored : List PolicyCommitRecord → List AuditRecord → Bool
citations_anchored cs [] = true
citations_anchored cs (r ∷ rs) =
    let rest = citations_anchored cs rs in
    if is_cited r
    then is_anchored (or_else r.tenant_id r.client_id) (or_else r.policy_digest "") cs && rest
    else rest

pub record Report : Type 0 where
  pub p1_record_chain : Verdict
  pub p2_anchored_heads : Verdict
  pub p3_anchor_chain : Verdict
  pub p4_completeness : Verdict
  pub p5_policy_commits : Option Verdict
  pub p6_citations : Option Verdict

abbrev pub judge : Bool → Verdict
judge b = if b then established else contradiction

abbrev pub is_some : {A : Type 0} → Option A → Bool
is_some none = false
is_some (some a) = true

-- `if not anchors: CANNOT_ESTABLISH`
abbrev pub over : List AnchorRecord → Verdict → Verdict
over [] v = cannot_establish
over (a ∷ anchors) v = v

abbrev judge_commits : Library → List PolicyCommitRecord → Option Verdict
judge_commits lib [] = none
judge_commits lib (c ∷ cs) = some (judge (commits_hold lib (c ∷ cs)))

-- The head anchors, in the order in which the propositions read them.
abbrev pub sorted_heads : List AnchorEntry → List AnchorRecord
sorted_heads log = sort_by (λ (a : AnchorRecord). a.epoch) (heads_of log)

unfoldable pub report : Library → List AuditRecord → List AnchorEntry → Walk → Report
report lib records log w =
    let anchors = sorted_heads log in
    let commits = commits_of log in
    record {
      p1_record_chain = judge w.0;
      p2_anchored_heads = over anchors (judge (heads_match w.1 anchors));
      p3_anchor_chain =
          over anchors (judge (is_some (anchor_chain lib 0 genesis_anchor_hash anchors)));
      p4_completeness = over anchors (judge (leb (covered anchors) (length records)));
      p5_policy_commits = judge_commits lib commits;
      p6_citations =
          if any_cited records then some (judge (citations_anchored commits records)) else none;
    }

unfoldable pub verify_custody :
    Library → List AuditRecord → List AnchorEntry → Result AuditError Report
verify_custody lib records log = do
  w ← rewalk lib genesis_hash records
  ok (report lib records log w)

-- The verdicts that the report lists.
abbrev listed : Option Verdict → List Verdict → List Verdict
listed none vs = vs
listed (some v) vs = v ∷ vs

abbrev pub verdicts : Report → List Verdict
verdicts r =
    r.p1_record_chain
    ∷ r.p2_anchored_heads
    ∷ r.p3_anchor_chain
    ∷ r.p4_completeness
    ∷ listed r.p5_policy_commits (listed r.p6_citations [])

-- A contradiction outweighs all; all must be established for the whole to be.
abbrev weigh : Verdict → Verdict → Verdict
weigh contradiction v = contradiction
weigh v contradiction = contradiction
weigh established established = established
weigh _ _ = cannot_establish

unfoldable pub overall_of : List Verdict → Verdict
overall_of [] = established
overall_of (v ∷ vs) = weigh v (overall_of vs)

-- `report["overall"]`
abbrev pub overall : Report → Verdict
overall r = overall_of (verdicts r)
