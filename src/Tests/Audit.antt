-- ===== src/Tests/Audit.antt =====
-- The audit chain at concrete inputs.
use custos_core.Common.{◌≡◌, refl, true, ◌⊎◌, [], ◌∷◌, ok, arith}
use custos_core.Audit.Record.{preimage_fields, compute_record_hash}
use custos_core.Audit.Store.{save, key_taken, load_all}
use custos_core.Audit.Chain.{
  genesis_hash, latest_hash, resolve_tenant, bound_evidence_required, new_record, record_entry,
  open_chain, verify_records, verify, is_ok,
}
use custos_core.Audit.Chain.Integrity.{record_entry-verify}
use custos_core.Audit.Chain.Isolation.{NoFork, record_entry-NoFork}
use custos_core.Audit.Chain.Restart.{InSync, record_entry-open_chain}
use custos_core.Audit.Chain.Evidence.{Collision, SameHistory, verify_records-SameHistory}
use custos_core.Tests.Toy.{toy, noon, entry, denial, acme, acme_one, first_record}

record_first : record_entry toy noon entry acme [] ≡ (ok first_record, acme_one, first_record ∷ [])
unfolding record_entry new_record resolve_tenant bound_evidence_required compute_record_hash
    preimage_fields save latest_hash
record_first = refl

acme_one-verify : is_ok (verify toy acme_one) ≡ true
unfolding verify compute_record_hash preimage_fields
acme_one-verify = refl

record_entry-verify_example :
    is_ok (verify toy (record_entry toy noon denial acme_one (first_record ∷ [])).1) ≡ true
record_entry-verify_example =
    record_entry-verify toy noon denial acme_one (first_record ∷ []) acme_one-verify

record_entry-NoFork_example : NoFork (record_entry toy noon denial acme_one (first_record ∷ [])).2
unfolding key_taken
record_entry-NoFork_example =
    record_entry-NoFork toy noon denial acme_one (first_record ∷ []) (refl, tt)

record_entry-open_chain_example :
    let (_, c', rows') = record_entry toy noon denial acme_one (first_record ∷ []) in
    InSync "acme" c' rows'
unfolding open_chain load_all
record_entry-open_chain_example =
    record_entry-open_chain toy noon denial "acme" acme_one (first_record ∷ []) (λ e. ground arith)
      refl

verify_records-SameHistory_example :
    Collision toy acme_one.records (first_record ∷ [])
    ⊎ SameHistory genesis_hash genesis_hash acme_one.records (first_record ∷ [])
unfolding verify_records compute_record_hash preimage_fields
verify_records-SameHistory_example =
    verify_records-SameHistory toy acme_one.records (first_record ∷ []) refl refl refl refl
