-- ===== src/Retention/Reconcile.antt =====
-- custos/retention.py: `reconcile`, which compares the records with the store.
use custos_core.Common.{
  ℕ, ◌+◌, length, ◌++◌, String, Bool, false, ◌||◌, none, some, List, [], ◌∷◌, str_eq, contains,
  if◌then◌else◌,
}
use custos_core.Common.Dict.{Dict, lookup, insert, has_key}
use custos_core.Audit.Record.{
  AuditRecord, commitment_salted_v1, commitment_unsalted_v0, commitment_purged_v1,
}
use custos_core.Retention.{ContentStore, Status, present, purged, unknown, status}

pub data FindingKind : Type 0 where
  body_missing unattested_purge uneffected_purge : FindingKind

pub record Finding : Type 0 where
  pub kind : FindingKind
  pub content_hash : String
  pub record_indexes : List ℕ

pub record Reconciliation : Type 0 where
  pub findings : List Finding
  pub records_read : ℕ
  pub digests_examined : ℕ

abbrev pub is_purge : AuditRecord → Bool
is_purge r = str_eq r.commitment commitment_purged_v1

abbrev pub is_stored : AuditRecord → Bool
is_stored r = str_eq r.commitment commitment_salted_v1 || str_eq r.commitment commitment_unsalted_v0

-- The set `attested`, as a list without repetitions.
unfoldable pub add_new : String → List String → List String
add_new h hs = if contains hs h then hs else hs ++ h ∷ []

-- `claims.setdefault(content_hash, []).append(index)`
unfoldable pub append_claim : String → ℕ → Dict (List ℕ) → Dict (List ℕ)
append_claim h i claims =
    insert h ((elim (lookup h claims) [ none ↦ [] | some is ↦ is ]) ++ i ∷ []) claims

-- The two tables that the loop over the records fills.
pub record Scan : Type 0 where
  pub attested : List String
  pub claims : Dict (List ℕ)
  pub index : ℕ

unfoldable pub scan_record : AuditRecord → Scan → Scan
unfolding add_new append_claim
scan_record r s =
    if is_purge r
    then record s { attested = add_new r.content_hash s.attested; index = s.index + 1 }
    else if is_stored r
    then record s { claims = append_claim r.content_hash s.index s.claims; index = s.index + 1 }
    else record s { index = s.index + 1 }

unfoldable pub scan_all : List AuditRecord → Scan → Scan
scan_all [] s = s
scan_all (r ∷ rs) s = scan_all rs (scan_record r s)

abbrev pub empty_scan : Scan
empty_scan = record { attested = []; claims = []; index = 0 }

-- The findings on one claimed digest.
abbrev pub claim_findings : Status → Bool → String → List ℕ → List Finding
claim_findings purged false h indexes =
    record { kind = unattested_purge; content_hash = h; record_indexes = indexes } ∷ []
claim_findings unknown attested h indexes =
    record { kind = body_missing; content_hash = h; record_indexes = indexes } ∷ []
claim_findings _ _ h indexes = []

unfoldable pub findings_of_claims : ContentStore → List String → Dict (List ℕ) → List Finding
findings_of_claims s attested [] = []
findings_of_claims s attested ((h, indexes) ∷ claims) =
    claim_findings (status h s) (contains attested h) h indexes
    ++ findings_of_claims s attested claims

abbrev pub attested_findings : Status → String → List Finding
attested_findings present h =
    record { kind = uneffected_purge; content_hash = h; record_indexes = [] } ∷ []
attested_findings _ h = []

unfoldable pub findings_of_attested : ContentStore → List String → List Finding
findings_of_attested s [] = []
findings_of_attested s (h ∷ hs) = attested_findings (status h s) h ++ findings_of_attested s hs

-- `len(attested - set(claims))`
abbrev unclaimed : Dict (List ℕ) → List String → ℕ
unclaimed claims [] = 0
unclaimed claims (h ∷ hs) =
    if has_key h claims then unclaimed claims hs else 1 + unclaimed claims hs

unfoldable pub reconcile : List AuditRecord → ContentStore → Reconciliation
reconcile records s =
    let scan = scan_all records empty_scan in
    record {
      findings =
          findings_of_claims s scan.attested scan.claims ++ findings_of_attested s scan.attested;
      records_read = scan.index;
      digests_examined = length scan.claims + unclaimed scan.claims scan.attested;
    }
