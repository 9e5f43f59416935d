-- ===== src/Custody/Verify/Rewalk.antt =====
-- custos/custody.py and custos/audit.py: the external re-walk and the internal verifier agree.
use custos_core.Common.{
  ℕ, ◌+◌, String, ◌≡◌, ◌↔◌, refl, true, false, List, [], ◌∷◌, arith, Result, ok, err, eq_iff,
  str_eq, ltb, ◌∙◌, sym, ap, ◌&&◌, str_eq_refl, Bool-cases, inl, inr, ◌>>=◌,
}
use custos_core.Audit.Record.{
  AuditRecord, AuditError, Library, compute_record_hash, preimage_fields, record_binding_current,
}
use custos_core.Audit.Chain.{genesis_hash, verified, verify_from, verify_records, is_ok}
use custos_core.Audit.Chain.Integrity.{verify_records-verified, verified-verify_records}
use custos_core.Audit.Chain.Evidence.{step_hash}
use custos_core.Custody.Anchor.{AnchorEntry}
use custos_core.Custody.Verify.{Walk, rewalk, Report, report, verify_custody, established}

abbrev pub hashes_of : List AuditRecord → List String
hashes_of [] = []
hashes_of (r ∷ rs) = r.record_hash ∷ hashes_of rs

known_version :
    (lib : Library) (r : AuditRecord) (p : String) {h : String}
    → compute_record_hash lib r p ≡ ok h
    → ltb record_binding_current r.binding_version ≡ false
unfolding compute_record_hash preimage_fields
known_version lib r p e = ground arith

broken_walk :
    (m : Result AuditError Walk) (h : String) (hs : List String)
    → let after : Result AuditError Walk = (m >>= λ w. ok (false, h ∷ w.1)) in
      ¬ (after ≡ ok (true, hs))
broken_walk (ok w) h hs e = cc
broken_walk (err x) h hs e = cc

module _ (r : AuditRecord) where
  abbrev keep : String → Walk → Result AuditError Walk
  keep h w = ok (str_eq r.record_hash h && w.0, h ∷ w.1)

  kept_walk :
      (m : Result AuditError Walk) (h : String) (hs : List String)
      → (m >>= keep h) ≡ ok (true, hs)
      → (tl : List String) × (m ≡ ok (true, tl)) × (r.record_hash ≡ h) × (hs ≡ h ∷ tl)
  kept_walk (ok (b, tl)) h hs e =
      (tl, ground arith, ground (arith, eq_iff r.record_hash h), ground arith)
  kept_walk (err x) h hs e = cc

  hashed_walk :
      (c : Result AuditError String) (k : String → Result AuditError Walk) (hs : List String)
      → (c >>= λ h. k h >>= keep h) ≡ ok (true, hs)
      → (tl : List String) × (c ≡ ok r.record_hash)
        × (k r.record_hash ≡ ok (true, tl))
        × (hs ≡ r.record_hash ∷ tl)
  hashed_walk (ok h) k hs e =
      let (tl, walked, same, eq) = kept_walk (k h) h hs e in
      (tl, ap ok (sym same), simp same walked, simp same eq)
  hashed_walk (err x) k hs e = cc

-- One step of a re-walk that meets no break.
unbroken :
    (lib : Library) (p : String) (r : AuditRecord) (rs : List AuditRecord) (hs : List String)
    → rewalk lib p (r ∷ rs) ≡ ok (true, hs)
    → (tl : List String) × (r.previous_hash ≡ p)
      × (compute_record_hash lib r p ≡ ok r.record_hash)
      × (rewalk lib r.record_hash rs ≡ ok (true, tl))
      × (hs ≡ r.record_hash ∷ tl)
unfolding rewalk
unbroken lib p r rs hs e = elim (Bool-cases (str_eq r.previous_hash p)) [
  | inr bad ↦ absurd (broken_walk (rewalk lib r.record_hash rs) r.record_hash hs (rw bad at e))
  | inl good ↦
      let (tl, hashed, walked, eq) =
        hashed_walk r (compute_record_hash lib r p) (λ h. rewalk lib h rs) hs (rw good at e) in
      (tl, (eq_iff r.previous_hash p).0 good, hashed, walked, eq)
]

pub verify_step :
    (lib : Library) (i : ℕ) (p : String) (r : AuditRecord) (rs : List AuditRecord)
    → r.previous_hash ≡ p
    → compute_record_hash lib r p ≡ ok r.record_hash
    → verify_from lib i p (r ∷ rs) ≡ verify_from lib (i + 1) r.record_hash rs
unfolding verify_from
verify_step lib i p r rs link hashed = ground (
  arith,
  hashed,
  known_version lib r p hashed,
  eq_iff r.previous_hash p,
  str_eq_refl r.record_hash,
)

rewalk_step :
    (lib : Library) (p : String) (r : AuditRecord) (rs : List AuditRecord) (hs : List String)
    → r.previous_hash ≡ p
    → compute_record_hash lib r p ≡ ok r.record_hash
    → rewalk lib r.record_hash rs ≡ ok (true, hs)
    → rewalk lib p (r ∷ rs) ≡ ok (true, r.record_hash ∷ hs)
unfolding rewalk
rewalk_step lib p r rs hs link hashed rest =
    ground (arith, eq_iff r.previous_hash p, str_eq_refl r.record_hash)

module _ (lib : Library) where
  pub rewalk-verified :
      (i : ℕ) (p : String) (rs : List AuditRecord) (hs : List String)
      → rewalk lib p rs ≡ ok (true, hs)
      → (verify_from lib i p rs ≡ verified) × (hs ≡ hashes_of rs)
  rewalk-verified i p [] hs e = (unfold verify_from in refl, unfold rewalk in ground arith)
  rewalk-verified i p (r ∷ rs) hs e =
      let (tl, link, hashed, walked, eq) = unbroken lib p r rs hs e in
      let (rest, same) = rewalk-verified (i + 1) r.record_hash rs tl walked in
      (verify_step lib i p r rs link hashed ∙ rest, eq ∙ ap (λ t. r.record_hash ∷ t) same)

  pub verified-rewalk :
      (i : ℕ) (p : String) (rs : List AuditRecord)
      → verify_from lib i p rs ≡ verified
      → rewalk lib p rs ≡ ok (true, hashes_of rs)
  verified-rewalk i p [] v = unfold rewalk in refl
  verified-rewalk i p (r ∷ rs) v =
      let (hashed, rest, link) = step_hash lib i p r rs v in
      rewalk_step lib p r rs (hashes_of rs) link hashed
        (verified-rewalk (i + 1) r.record_hash rs rest)

-- A report of a walk without a break is the report of that walk.
pub judged :
    (m : Result AuditError Walk) (lib : Library) (rs : List AuditRecord) (log : List AnchorEntry)
    (rep : Report)
    → (m >>= λ w. ok (report lib rs log w)) ≡ ok rep
    → rep.p1_record_chain ≡ established
    → (hs : List String) × (m ≡ ok (true, hs)) × (rep ≡ report lib rs log (true, hs))
unfolding report
judged (ok (true, hs)) lib rs log rep e h = (hs, refl, ground arith)
judged (ok (false, hs)) lib rs log rep e h = absurd (ground arith)
judged (err x) lib rs log rep e h = cc

-- What a report with P1 established says of the records.
pub p1-verified :
    (lib : Library) (rs : List AuditRecord) (log : List AnchorEntry) (rep : Report)
    → verify_custody lib rs log ≡ ok rep
    → rep.p1_record_chain ≡ established
    → (verify_from lib 0 genesis_hash rs ≡ verified)
      × (rep ≡ report lib rs log (true, hashes_of rs))
unfolding verify_custody
p1-verified lib rs log rep e h =
    let (hs, walked, eq) = judged (rewalk lib genesis_hash rs) lib rs log rep e h in
    let (v, same) = rewalk-verified lib 0 genesis_hash rs hs walked in
    (v, eq ∙ ap (λ t. report lib rs log (true, t)) same)

verified-p1 :
    (lib : Library) (rs : List AuditRecord) (log : List AnchorEntry)
    → verify_from lib 0 genesis_hash rs ≡ verified
    → verify_custody lib rs log ≡ ok (report lib rs log (true, hashes_of rs))
unfolding verify_custody
verified-p1 lib rs log v = rw (verified-rewalk lib 0 genesis_hash rs v)

-- The external re-walk and the internal verifier agree: `verify` accepts a log exactly when
-- `verify_custody` returns a report, whatever the anchors, in which P1 is established.
pub verify_custody-p1_iff :
    (lib : Library) (rs : List AuditRecord) (log : List AnchorEntry)
    → (is_ok (verify_records lib rs) ≡ true) ↔ (
        (rep : Report) × (verify_custody lib rs log ≡ ok rep) × (rep.p1_record_chain ≡ established))
verify_custody-p1_iff lib rs log = (
  λ v. (_, verified-p1 lib rs log (verify_records-verified lib rs v), unfold report in refl),
  λ r. verified-verify_records lib rs (p1-verified lib rs log r.0 r.1 r.2).0,
)
