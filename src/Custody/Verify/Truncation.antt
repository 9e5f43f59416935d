-- ===== src/Custody/Verify/Truncation.antt =====
-- custos/custody.py: a store that is shorter than an anchored length contradicts the log.
use custos_core.Common.{
  ◌≤◌, ◌<◌, ◌≡◌, ◌∙◌, ap, Bool, false, List, [], ◌∷◌, arith, Result, ok, err, inl, inr, In,
  In-sort_by, length, ◌>>=◌,
}
use custos_core.Audit.Record.{AuditRecord, AuditError, Library}
use custos_core.Custody.Anchor.{AnchorRecord, AnchorEntry, heads_of}
use custos_core.Custody.Verify.{
  Walk, Verdict, Report, contradiction, report, verify_custody, covered, sorted_heads, overall,
  overall_of, over, judge, listed,
}

le-covered :
    (a : AnchorRecord) (anchors : List AnchorRecord)
    → In a anchors
    → a.chain_length ≤ covered anchors
unfolding covered
le-covered a [] i = elim i [ ]
le-covered a (b ∷ anchors) (inl e) =
    let n = ap (λ (r : AnchorRecord). r.chain_length) e in ground arith
le-covered a (b ∷ anchors) (inr i) = ground (arith, le-covered a anchors i)

fourth :
    (a b c : Verdict) (vs : List Verdict)
    → overall_of (a ∷ b ∷ c ∷ contradiction ∷ vs) ≡ contradiction
unfolding overall_of
fourth a b c vs = ground arith

judged_short :
    (a : AnchorRecord) (anchors : List AnchorRecord) (b : Bool)
    → In a anchors
    → b ≡ false
    → over anchors (judge b) ≡ contradiction
judged_short a [] b i e = elim i [ ]
judged_short a (c ∷ anchors) b i e = rw e

returned :
    (m : Result AuditError Walk) (lib : Library) (rs : List AuditRecord) (log : List AnchorEntry)
    (rep : Report)
    → (m >>= λ w. ok (report lib rs log w)) ≡ ok rep
    → (w : Walk) × (rep ≡ report lib rs log w)
returned (ok w) lib rs log rep e = (w, ground arith)
returned (err x) lib rs log rep e = cc

-- Whatever else the report finds, a head anchor of more records than the store holds makes the overall
-- verdict a contradiction.
pub verify_custody-truncated :
    (lib : Library) (rs : List AuditRecord) (log : List AnchorEntry) (a : AnchorRecord)
    (rep : Report)
    → In a (heads_of log)
    → length rs < a.chain_length
    → verify_custody lib rs log ≡ ok rep
    → (rep.p4_completeness ≡ contradiction) × (overall rep ≡ contradiction)
unfolding verify_custody report
verify_custody-truncated lib rs log a rep i short e =
    let (w, eq) = returned _ lib rs log rep e in
    let j = In-sort_by (λ b. b.epoch) a (heads_of log) i in
    let most = le-covered a (sorted_heads log) j in
    let p4 : rep.p4_completeness ≡ contradiction =
      ap (λ (t : Report). t.p4_completeness) eq
      ∙ judged_short a (sorted_heads log) _ j (ground arith) in
    (
      p4,
      ap
            (λ v. overall_of (
              rep.p1_record_chain
              ∷ rep.p2_anchored_heads
              ∷ rep.p3_anchor_chain
              ∷ v
              ∷ listed rep.p5_policy_commits (listed rep.p6_citations [])))
            p4
          ∙ fourth rep.p1_record_chain rep.p2_anchored_heads rep.p3_anchor_chain _,
    )
