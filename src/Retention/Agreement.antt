-- ===== src/Retention/Agreement.antt =====
-- custos/retention.py: what an empty report of `reconcile` says.
use custos_core.Common.{
  ℕ, String, ◌++◌, ◌≡◌, ◌≢◌, refl, sym, subst, ◌∙◌, ◌↔◌, Bool, true, false, ◌||◌, not, List, [],
  ◌∷◌, arith, eq_iff, str_eq, str_eq_refl, contains, Bool-cases, inl, inr,
}
use custos_core.Common.Dict.{Dict, lookup, has_key, lookup-insert}
use custos_core.Audit.Record.{AuditRecord}
use custos_core.Retention.{ContentStore, Status, present, purged, unknown, status}
use custos_core.Retention.Reconcile.{
  Finding, Scan, empty_scan, scan_record, scan_all, claim_findings, attested_findings,
  findings_of_claims, findings_of_attested, reconcile, add_new, append_claim,
}
use custos_core.Retention.Keeps.{attests, claims_at, attested, claimed}

contains-append :
    (hs : List String) (k h : String) → contains (hs ++ k ∷ []) h ≡ (contains hs h || str_eq k h)
contains-append [] k h = ground arith
contains-append (x ∷ hs) k h = ground (arith, contains-append hs k h)

contains-add_new :
    (k h : String) (hs : List String) → contains (add_new k hs) h ≡ (contains hs h || str_eq k h)
unfolding add_new
contains-add_new k h hs = grind (arith, contains-append hs k h, eq_iff k h)

-- The scan finds a digest attested, or claimed, exactly if some record attests or claims it.
scan_record-attested :
    (r : AuditRecord) (s : Scan) (h : String)
    → contains (scan_record r s).attested h ≡ (contains s.attested h || attests r h)
unfolding scan_record
scan_record-attested r s h = ground (arith, contains-add_new r.content_hash h s.attested)

scan_record-claims :
    (r : AuditRecord) (s : Scan) (h : String)
    → has_key h (scan_record r s).claims ≡ (has_key h s.claims || claims_at r h)
unfolding scan_record append_claim
scan_record-claims r s h = grind (arith, lookup-insert, eq_iff r.content_hash h)

scan_all-attested :
    (rs : List AuditRecord) (s : Scan) (h : String)
    → contains (scan_all rs s).attested h ≡ (contains s.attested h || attested rs h)
unfolding scan_all
scan_all-attested [] s h = ground arith
scan_all-attested (r ∷ rs) s h =
    ground (arith, scan_all-attested rs (scan_record r s) h, scan_record-attested r s h)

scan_all-claims :
    (rs : List AuditRecord) (s : Scan) (h : String)
    → has_key h (scan_all rs s).claims ≡ (has_key h s.claims || claimed rs h)
unfolding scan_all
scan_all-claims [] s h = ground arith
scan_all-claims (r ∷ rs) s h =
    ground (arith, scan_all-claims rs (scan_record r s) h, scan_record-claims r s h)

has_key-head : (k : String) (v : List ℕ) (d : Dict (List ℕ)) → has_key k ((k, v) ∷ d) ≡ true
unfolding lookup
has_key-head k v d = ground (arith, eq_iff k k)

has_key-tail :
    (k h : String) (v : List ℕ) (d : Dict (List ℕ))
    → has_key h d ≡ true
    → has_key h ((k, v) ∷ d) ≡ true
unfolding lookup
has_key-tail k h v d here = ground arith

-- What the report asks of a claimed digest, by whether its purge is attested and by its status.
abbrev settled_claim : Bool → Status → Bool
settled_claim a present = true
settled_claim a purged = a
settled_claim a unknown = false

-- What it asks of every digest, by whether it is claimed, too: a claimed one has a body or an attested purge, and
-- one whose purge is attested has no body.
abbrev pub settled : Bool → Bool → Status → Bool
settled c a present = not a
settled c a purged = a || not c
settled c a unknown = not c

settled-claim_findings :
    (a : Bool) (t : Status) (h : String) (indexes : List ℕ)
    → (claim_findings t a h indexes ≡ []) ↔ (settled_claim a t ≡ true)
settled-claim_findings a present h indexes = (λ e. refl, λ e. refl)
settled-claim_findings true purged h indexes = (λ e. refl, λ e. refl)
settled-claim_findings false purged h indexes = (λ e. cc, λ e. cc)
settled-claim_findings a unknown h indexes = (λ e. cc, λ e. cc)

module _ (s : ContentStore) (hs : List String) where
  -- What is known of the digests claimed.
  abbrev ClaimsAgree : Dict (List ℕ) → Type 0
  ClaimsAgree [] = Unit
  ClaimsAgree ((h, indexes) ∷ claims) =
      (settled_claim (contains hs h) (status h s) ≡ true) × ClaimsAgree claims

  findings_of_claims-eq-[] :
      (claims : Dict (List ℕ)) → ClaimsAgree claims → findings_of_claims s hs claims ≡ []
  unfolding findings_of_claims
  findings_of_claims-eq-[] [] h = refl
  findings_of_claims-eq-[] ((k, indexes) ∷ claims) (now_, more) =
      rw ((settled-claim_findings (contains hs k) (status k s) k indexes).1 now_)
        (findings_of_claims-eq-[] claims more)

  claims_agree :
      (claims : Dict (List ℕ))
      → ((h : String) → has_key h claims ≡ true → settled_claim (contains hs h) (status h s) ≡ true)
      → ClaimsAgree claims
  claims_agree [] known = tt
  claims_agree ((k, indexes) ∷ claims) known = (
    known k (has_key-head k indexes claims),
    claims_agree claims (λ h here. known h (has_key-tail k h indexes claims here)),
  )

attested_findings-eq-[] : (t : Status) (h : String) → t ≢ present → attested_findings t h ≡ []
attested_findings-eq-[] present h absent = absurd (absent refl)
attested_findings-eq-[] purged h absent = refl
attested_findings-eq-[] unknown h absent = refl

findings_of_attested-eq-[] :
    (s : ContentStore) (hs : List String)
    → ((h : String) → contains hs h ≡ true → status h s ≢ present)
    → findings_of_attested s hs ≡ []
unfolding findings_of_attested
findings_of_attested-eq-[] s [] known = refl
findings_of_attested-eq-[] s (k ∷ hs) known =
    let head : contains (k ∷ hs) k ≡ true = ground (arith, str_eq_refl k) in
    rw (attested_findings-eq-[] (status k s) k (known k head))
      (findings_of_attested-eq-[] s hs (λ h here. known h (ground arith)))

append-eq-[] : (xs ys : List Finding) → xs ++ ys ≡ [] → (xs ≡ []) × (ys ≡ [])
append-eq-[] [] ys e = (refl, e)
append-eq-[] (x ∷ xs) ys e = cc

no_claim_finding :
    (s : ContentStore) (hs : List String) (h : String) (claims : Dict (List ℕ))
    → findings_of_claims s hs claims ≡ []
    → has_key h claims ≡ true
    → settled_claim (contains hs h) (status h s) ≡ true
unfolding findings_of_claims
no_claim_finding s hs h [] e here = (unfold lookup in cc)
no_claim_finding s hs h ((k, indexes) ∷ claims) e here =
    let (first, rest) = append-eq-[] (claim_findings (status k s) (contains hs k) k indexes) _ e in
    elim (Bool-cases (str_eq k h)) [
      | inl same ↦
          subst (λ x. settled_claim (contains hs x) (status x s) ≡ true) ((eq_iff k h).0 same)
            ((settled-claim_findings (contains hs k) (status k s) k indexes).0 first)
      | inr other ↦ no_claim_finding s hs h claims rest (unfold lookup in ground arith)
    ]

attested_findings-present : (t : Status) (h : String) → attested_findings t h ≡ [] → t ≢ present
attested_findings-present present h e there = cc
attested_findings-present purged h e there = cc
attested_findings-present unknown h e there = cc

no_attested_finding :
    (s : ContentStore) (hs : List String) (h : String)
    → findings_of_attested s hs ≡ []
    → contains hs h ≡ true
    → status h s ≢ present
unfolding findings_of_attested
no_attested_finding s [] h e here = cc
no_attested_finding s (k ∷ hs) h e here =
    let (first, rest) = append-eq-[] (attested_findings (status k s) k) _ e in
    elim (Bool-cases (str_eq k h)) [
      | inl same ↦
          subst (λ x. status x s ≢ present) ((eq_iff k h).0 same)
            (attested_findings-present (status k s) k first)
      | inr other ↦ no_attested_finding s hs h rest (ground arith)
    ]

settled-parts :
    (c a : Bool) (t : Status)
    → (c ≡ true → settled_claim a t ≡ true)
    → (a ≡ true → t ≢ present)
    → settled c a t ≡ true
settled-parts c true present claim purge = absurd (purge refl refl)
settled-parts c false present claim purge = refl
settled-parts c true purged claim purge = refl
settled-parts true false purged claim purge = claim refl
settled-parts false false purged claim purge = refl
settled-parts true a unknown claim purge = claim refl
settled-parts false a unknown claim purge = refl

settled-absent : (c a : Bool) (t : Status) → settled c a t ≡ true → a ≡ true → t ≢ present
settled-absent c true present e at there = cc
settled-absent c a purged e at there = cc
settled-absent c a unknown e at there = cc
settled-absent c false present e at there = cc

settled-claimed : (a : Bool) (t : Status) → settled true a t ≡ true → settled_claim a t ≡ true
settled-claimed a present e = refl
settled-claimed true purged e = refl
settled-claimed false purged e = e
settled-claimed a unknown e = e

module _ (records : List AuditRecord) (s : ContentStore) where
  abbrev scanned : Scan
  scanned = scan_all records empty_scan

  seen : (k : String) → contains scanned.attested k ≡ attested records k
  seen k = ground (arith, scan_all-attested records empty_scan k)

  held : (k : String) → has_key k scanned.claims ≡ claimed records k
  held k = unfold lookup in ground (arith, scan_all-claims records empty_scan k)

  reconcile-settled :
      (reconcile records s).findings ≡ []
      → (h : String) → settled (claimed records h) (attested records h) (status h s) ≡ true
  unfolding reconcile
  reconcile-settled e h =
      let (claims, purges) =
        append-eq-[] (findings_of_claims s scanned.attested scanned.claims) _ e in
      settled-parts (claimed records h) (attested records h) (status h s)
        (λ c.
          subst (λ b. settled_claim b (status h s) ≡ true) (seen h)
            (no_claim_finding s scanned.attested h scanned.claims claims (held h ∙ c)))
        (λ a. no_attested_finding s scanned.attested h purges (seen h ∙ a))

  settled-reconcile :
      ((h : String) → settled (claimed records h) (attested records h) (status h s) ≡ true)
      → (reconcile records s).findings ≡ []
  unfolding reconcile
  settled-reconcile known =
      let claims = findings_of_claims-eq-[] s scanned.attested scanned.claims (
        claims_agree s scanned.attested scanned.claims (λ k here.
          subst (λ b. settled_claim b (status k s) ≡ true) (sym (seen k))
            (settled-claimed (attested records k) (status k s) (
              subst (λ b. settled b (attested records k) (status k s) ≡ true) (sym (held k) ∙ here)
                (known k))))) in
      let purges = findings_of_attested-eq-[] s scanned.attested (λ k here.
        settled-absent (claimed records k) (attested records k) (status k s) (known k)
          (sym (seen k) ∙ here)) in
      rw (claims, purges) refl

  -- The report is empty exactly when every digest is settled: if a record claims a stored form of it, the store
  -- has its body, or has purged it and some record attests that; and if a record attests its purge, the store has
  -- no body of it.
  pub reconcile-settled_iff :
      ((reconcile records s).findings ≡ [])
      ↔ ((h : String) → settled (claimed records h) (attested records h) (status h s) ≡ true)
  reconcile-settled_iff = (reconcile-settled, settled-reconcile)

-- A digest that is claimed, was purged and has no attestation is in the report.
pub unattested-reconcile :
    (records : List AuditRecord) (s : ContentStore) (h : String)
    → claimed records h ≡ true
    → attested records h ≡ false
    → status h s ≡ purged
    → (reconcile records s).findings ≢ []
unattested-reconcile records s h c a gone none_found =
    let fine = reconcile-settled records s none_found h in
    (let no_way : settled true false purged ≡ true = rw (c, a, gone) at fine in cc)
