-- ===== src/Tests/Retention.antt =====
-- Retention at concrete inputs.
use custos_core.Common.{
  String, ◌≡◌, ◌≢◌, ◌⊎◌, ◌↔◌, refl, true, none, some, List, [], ◌∷◌, str_eq, ok, err,
}
use custos_core.Common.Dict.{lookup, insert, erase}
use custos_core.Audit.Record.{AuditError, preimage_fields, compute_record_hash}
use custos_core.Audit.Store.{save, same_key}
use custos_core.Audit.Chain.{
  Moment, latest_hash, resolve_tenant, bound_evidence_required, new_record, record_entry,
}
use custos_core.Retention.{
  chain_error, content_purged, integrity_error, status, empty_store, salted_body, put, put_legacy,
  commitment_form, marker_at, open_body, verify_commitment,
}
use custos_core.Retention.Decision.{
  Ledger, store_mode, record_in, record_stored, put_and_record, record_decision, purge,
  attested_result,
}
use custos_core.Retention.Reconcile.{reconcile}
use custos_core.Retention.Keeps.{Sound, attested, claimed}
use custos_core.Retention.Recorded.{record_decision-Sound}
use custos_core.Retention.Agreement.{settled, reconcile-settled_iff}
use custos_core.Retention.Erasure.{Attests, purge-Sound}
use custos_core.Retention.Forgotten.{
  Call, put_call, decide_call, calls, calls-forgotten, put_legacy-undoes_purge,
}
use custos_core.Retention.Commitment.{Collision, put-verify_commitment}
use custos_core.Admin.{Handled, status_code, content_raised, purge_content}
use custos_core.Admin.Unattested.{purge_content-unattested}
use custos_core.Tests.Toy.{toy, noon, entry, acme}

abbrev empty_ledger : Ledger
empty_ledger = record { chain = acme; rows = []; store = empty_store }

-- The ledger after one decision whose content is kept, and after its purge.
abbrev held : Ledger
held = (record_decision toy noon "s" store_mode entry empty_ledger).1

abbrev erased : Ledger
erased = (purge toy noon "hello" "dpo" "request" none none held).1

empty_ledger-Sound : Sound toy empty_ledger.chain.records empty_ledger.store
unfolding status lookup
empty_ledger-Sound = record { agrees = λ h. refl; kept = tt }

record_decision-Sound_example : Sound toy held.chain.records held.store
record_decision-Sound_example =
    record_decision-Sound toy noon entry "s" store_mode empty_ledger empty_ledger-Sound

held-Sound : Sound toy held.chain.records held.store
held-Sound = record_decision-Sound toy noon entry "s" store_mode empty_ledger empty_ledger-Sound

reconcile-settled_iff_example : ((reconcile erased.chain.records erased.store).findings ≡ []) ↔ (
    (h : String)
    → settled
        (claimed erased.chain.records h)
        (attested erased.chain.records h)
        (status h erased.store)
      ≡ true)
reconcile-settled_iff_example = reconcile-settled_iff erased.chain.records erased.store

-- The hash that the purge returns.
abbrev attestation : String
attestation = elim (purge toy noon "hello" "dpo" "request" none none held).0 [
  | ok hash ↦ hash
  | err x ↦ ""
]

purge-Sound_example :
    Sound toy erased.chain.records erased.store
    × (open_body "hello" erased.store ≡ err content_purged)
    × Attests toy noon "hello" "dpo" "request" none none held erased attestation
unfolding purge record_decision put_and_record put record_stored record_in commitment_form marker_at
    record_entry new_record resolve_tenant bound_evidence_required compute_record_hash
    preimage_fields save latest_hash lookup insert erase attested_result salted_body same_key
purge-Sound_example = purge-Sound toy noon "hello" "dpo" "request" none none held _ held-Sound refl

-- A deployment that wants every record bound, and a purge that cites nothing.
abbrev bound : Moment
bound = record noon { require_bound = some "on" }

abbrev later : List Call
later = put_call "t" 9 "hello" ∷ decide_call noon "u" store_mode entry ∷ []

calls-forgotten_example :
    let l' = calls toy later erased in
    (open_body "hello" l'.store ≡ err content_purged)
    × (purge toy noon "hello" "dpo" "again" none none l' ≡ (err content_purged, l'))
unfolding status purge record_decision put_and_record put record_stored record_in commitment_form
    marker_at record_entry new_record resolve_tenant bound_evidence_required compute_record_hash
    preimage_fields save latest_hash lookup insert erase attested_result salted_body same_key
calls-forgotten_example = calls-forgotten toy later noon "hello" "dpo" "again" none none erased refl

put_legacy-undoes_purge_example :
    let l' : Ledger = record erased { store = put_legacy toy 9 "hello" erased.store } in
    (open_body "hello" l'.store ≡ ok "hello")
    × (purge toy noon "hello" "dpo" "again" none none l' ≡ (err integrity_error, l'))
unfolding status purge record_decision put_and_record put record_stored record_in commitment_form
    marker_at record_entry new_record resolve_tenant bound_evidence_required compute_record_hash
    preimage_fields save latest_hash lookup insert erase attested_result salted_body same_key
put_legacy-undoes_purge_example =
    put_legacy-undoes_purge toy 9 "hello" noon "dpo" "again" none none erased refl

put-verify_commitment_example :
    ((open_body "bye" (record { bodies = ("bye", salted_body toy "s" 9 "bye") ∷ []; purges = [] })
        ≡ ok "bye")
      × (verify_commitment toy "bye" "hello"
            (record { bodies = ("bye", salted_body toy "s" 9 "bye") ∷ []; purges = [] })
          ≡ ok (str_eq "hello" "bye")))
    ⊎ Collision toy
unfolding put lookup insert
put-verify_commitment_example =
    put-verify_commitment toy [] "s" 9 "bye" "hello" empty_store
      (record { bodies = ("bye", salted_body toy "s" 9 "bye") ∷ []; purges = [] })
      empty_ledger-Sound tt refl

-- The ledger after an operator's erasure in such a deployment.
abbrev lost : Handled String × Ledger
lost = purge_content toy bound (some "d1") "hello" "request" held

purge_content-unattested_example :
    ((x : AuditError) × (lost.0 ≡ content_raised (chain_error x)))
    × (open_body "hello" lost.1.store ≡ err content_purged)
    × ((reconcile lost.1.chain.records lost.1.store).findings ≢ [])
    × (purge_content toy noon (some "d1") "hello" "second request" lost.1
        ≡ (status_code 409, lost.1))
unfolding status bound_evidence_required purge record_decision put_and_record put record_stored
    record_in commitment_form marker_at record_entry new_record resolve_tenant compute_record_hash
    preimage_fields save latest_hash lookup insert erase attested_result salted_body same_key
purge_content-unattested_example =
    purge_content-unattested toy bound "hello" "request" (some "d1") noon "second request" held refl
      held-Sound refl refl refl
