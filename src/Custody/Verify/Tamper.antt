-- ===== src/Custody/Verify/Tamper.antt =====
-- custos/custody.py: what an established report proves. Two stores that one anchor log accepts hold the
-- same evidence up to every anchored length, or two of their records are a collision of the hash.
use custos_core.Common.{
  ℕ, zero, suc, ◌+◌, String, ◌≡◌, ◌⊎◌, inl, inr, refl, sym, ◌∙◌, ap, Bool, true, false, Option,
  none, some, List, [], ◌∷◌, arith, ok, eq_iff, All, All-In, In, In-sort_by, length, take,
  get_elem?,
}
use custos_core.Audit.Record.{AuditRecord, Library}
use custos_core.Audit.Chain.{genesis_hash, verified, verify_from, latest_from}
use custos_core.Audit.Chain.Evidence.{Collision, SameHistory, step_hash, same_head-SameHistory}
use custos_core.Custody.Anchor.{AnchorRecord, AnchorEntry, heads_of}
use custos_core.Custody.Verify.{
  Report, report, verify_custody, established, head_at, same_head, heads_match, sorted_heads, over,
  judge,
}
use custos_core.Custody.Verify.Rewalk.{hashes_of, p1-verified, verify_step}

module _ (lib : Library) where
  verify_from-take :
      (n i : ℕ) (p : String) (rs : List AuditRecord)
      → verify_from lib i p rs ≡ verified
      → verify_from lib i p (take n rs) ≡ verified
  verify_from-take zero i p rs v = unfold verify_from in refl
  verify_from-take (suc n) i p [] v = v
  verify_from-take (suc n) i p (r ∷ rs) v =
      let (hashed, rest, link) = step_hash lib i p r rs v in
      verify_step lib i p r (take n rs) link hashed
      ∙ verify_from-take n (i + 1) r.record_hash rs rest

-- The hash that the store holds at an anchored length.
head_at-take :
    (n : ℕ) (p h : String) (rs : List AuditRecord)
    → get_elem? (hashes_of rs) n ≡ some h
    → (latest_from p (take (suc n) rs) ≡ h) × (length (take (suc n) rs) ≡ suc n)
head_at-take n p h [] e = cc
head_at-take zero p h (r ∷ rs) e = (ground arith, refl)
head_at-take (suc n) p h (r ∷ rs) e =
    let (last, len) = head_at-take n r.record_hash h rs e in (last, ap suc len)

-- An anchor that matches a store.
abbrev pub Matches : List AuditRecord → AnchorRecord → Type 0
Matches rs a = head_at a.chain_length (hashes_of rs) ≡ some a.head_hash

same_head-eq : (o : Option String) (h : String) → same_head o h ≡ true → o ≡ some h
same_head-eq none h e = cc
same_head-eq (some x) h e = ap some ((eq_iff x h).0 e)

heads_match-All :
    (rs : List AuditRecord) (anchors : List AnchorRecord)
    → heads_match (hashes_of rs) anchors ≡ true
    → All (Matches rs) anchors
unfolding heads_match
heads_match-All rs [] e = tt
heads_match-All rs (a ∷ anchors) e = (
  same_head-eq (head_at a.chain_length (hashes_of rs)) a.head_hash (ground arith),
  heads_match-All rs anchors (ground arith),
)

-- The external log accepts the store: a report comes back, with P1 and P2 established.
abbrev pub Accepts : Library → List AuditRecord → List AnchorEntry → Type 0
Accepts lib rs log =
    (rep : Report) × (verify_custody lib rs log ≡ ok rep)
    × (rep.p1_record_chain ≡ established)
    × (rep.p2_anchored_heads ≡ established)

judged_heads :
    (anchors : List AnchorRecord) (b : Bool) → over anchors (judge b) ≡ established → b ≡ true
judged_heads [] b e = cc
judged_heads (a ∷ anchors) true e = refl
judged_heads (a ∷ anchors) false e = cc

Accepts-Matches :
    (lib : Library) (rs : List AuditRecord) (log : List AnchorEntry)
    → Accepts lib rs log
    → (verify_from lib 0 genesis_hash rs ≡ verified) × All (Matches rs) (sorted_heads log)
unfolding report
Accepts-Matches lib rs log (rep, e, p1, p2) =
    let (v, same) = p1-verified lib rs log rep e p1 in
    (
      v,
      heads_match-All rs (sorted_heads log) (
          judged_heads (sorted_heads log) _
            (sym (ap (λ (t : Report). t.p2_anchored_heads) same) ∙ p2)),
    )

-- The stretch of a store that an anchor fixes: it verifies, and its length and last hash are the anchor's.
record Fixed (lib : Library) (a : AnchorRecord) (rs : List AuditRecord) : Type 0 where
  walks : verify_from lib 0 genesis_hash (take a.chain_length rs) ≡ verified
  long : length (take a.chain_length rs) ≡ a.chain_length
  last : latest_from genesis_hash (take a.chain_length rs) ≡ a.head_hash

matched :
    (n : ℕ) (h : String) (rs : List AuditRecord)
    → head_at n (hashes_of rs) ≡ some h
    → (length (take n rs) ≡ n) × (latest_from genesis_hash (take n rs) ≡ h)
matched zero h rs e = cc
matched (suc n) h rs e = let (last, len) = head_at-take n genesis_hash h rs e in (len, last)

Accepts-Fixed :
    (lib : Library) (rs : List AuditRecord) (log : List AnchorEntry) (a : AnchorRecord)
    → Accepts lib rs log
    → In a (heads_of log)
    → Fixed lib a rs
Accepts-Fixed lib rs log a acc i =
    let (v, all) = Accepts-Matches lib rs log acc in
    let m : Matches rs a =
      All-In (Matches rs) (sorted_heads log) all (In-sort_by (λ b. b.epoch) a (heads_of log) i) in
    let (len, last) = matched a.chain_length a.head_hash rs m in
    record {
      walks = verify_from-take lib a.chain_length 0 genesis_hash rs v;
      long = len;
      last = last;
    }

-- If one external log accepts two stores, then for each head anchor in it the two stores hold the same
-- evidence in their first `chain_length` records, which both have, or those records hold a collision: one of
-- each store, whose preimages differ at a key and have one hash.
pub verify_custody-SameHistory :
    (lib : Library) (xs ys : List AuditRecord) (log : List AnchorEntry) (a : AnchorRecord)
    → Accepts lib xs log
    → Accepts lib ys log
    → In a (heads_of log)
    → Collision lib (take a.chain_length xs) (take a.chain_length ys)
      ⊎ (SameHistory genesis_hash genesis_hash (take a.chain_length xs) (take a.chain_length ys)
          × (length (take a.chain_length xs) ≡ a.chain_length)
          × (length (take a.chain_length ys) ≡ a.chain_length))
verify_custody-SameHistory lib xs ys log a ax ay i =
    let fx = Accepts-Fixed lib xs log a ax i in
    let fy = Accepts-Fixed lib ys log a ay i in
    elim (same_head-SameHistory lib 0 0 genesis_hash genesis_hash (take a.chain_length xs)
      (take a.chain_length ys) fx.walks fy.walks (fx.long ∙ sym fy.long) (fx.last ∙ sym fy.last)) [
        | inl c ↦ inl c
        | inr (_, same) ↦ inr (same, fx.long, fy.long)
      ]
