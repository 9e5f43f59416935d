-- ===== src/Service/Recording.antt =====
-- custos/retention.py and main.py: the record that a decision leaves, whatever retention is in force.
use custos_core.Common.{◌++◌, String, ◌≡◌, refl, ap, ◌∙◌, [], ◌∷◌, Result, ok, err}
use custos_core.Audit.Record.{AuditRecord, Library}
use custos_core.Audit.Chain.{Chain, Entry, Moment}
use custos_core.Retention.{
  ContentStore, ContentError, content_purged, purge_refused, integrity_error, not_attributable,
  config_refused, chain_error, put, commitment_form,
}
use custos_core.Retention.Decision.{
  Ledger, Retention, off, store_mode, refused_mode, record_stored, put_and_record, unretained,
  or_unretained, record_decision,
}
use custos_core.Retention.Keeps.{Written, record_in-Written}

-- A record of the arguments `e`.
pub record Notes (lib : Library) (e : Entry) (r : AuditRecord) : Type 0 where
  pub content : r.content_hash ≡ lib.sha256 e.content
  pub client : r.client_id ≡ e.client_id
  pub action : r.action ≡ e.action
  pub rule : r.triggered_rule ≡ e.triggered_rule
  pub trace : r.trace_id ≡ e.trace_id
  pub citation : r.policy_digest ≡ e.policy_digest

-- A call that returns a record has appended it; one that raises has left the chain.
abbrev pub Noted : Library → Entry → Ledger → Result ContentError AuditRecord × Ledger → Type 0
Noted lib e l (ok r, l') =
    (l'.chain ≡ record l.chain { records = l.chain.records ++ r ∷ [] }) × Notes lib e r
Noted lib e l (err x, l') = l'.chain ≡ l.chain

Written-Noted :
    (lib : Library) (e : Entry) (form : String) (l l₀ : Ledger)
    (out : Result ContentError AuditRecord × Ledger)
    → l₀.chain ≡ l.chain
    → Written lib (record e { commitment = form }) l₀ out
    → Noted lib e l out
Written-Noted lib e form l l₀ (ok r, l') same (next, grown, stored) = (
  grown ∙ ap (λ (c : Chain). record c { records = c.records ++ r ∷ [] }) same,
  record {
    content = next.content;
    client = next.client;
    action = next.action;
    rule = next.rule;
    trace = next.trace;
    citation = next.citation;
  },
)
Written-Noted lib e form l l₀ (err x, l') same (still, stored) = still ∙ same

module _ (lib : Library) (m : Moment) (e : Entry) (l : Ledger) where
  stored-Noted : (s : Result ContentError ContentStore) → Noted lib e l (record_stored lib m e s l)
  unfolding record_stored
  stored-Noted (err x) = refl
  stored-Noted (ok s) =
      let form = commitment_form (lib.sha256 e.content) s in
      Written-Noted lib e form l (record l { store = s }) _ refl
        (record_in-Written lib m (record e { commitment = form }) (record l { store = s }))

  or_unretained-Noted :
      (out : Result ContentError AuditRecord × Ledger)
      → Noted lib e l out
      → Noted lib e l (or_unretained lib m e l out)
  or_unretained-Noted (err content_purged, l') h =
      Written-Noted lib e _ l l _ refl (record_in-Written lib m (unretained e) l)
  or_unretained-Noted (err purge_refused, l') h = h
  or_unretained-Noted (err integrity_error, l') h = h
  or_unretained-Noted (err not_attributable, l') h = h
  or_unretained-Noted (err config_refused, l') h = h
  or_unretained-Noted (err (chain_error x), l') h = h
  or_unretained-Noted (ok r, l') h = h

  pub record_decision-Noted :
      (salt : String) (mode : Retention) → Noted lib e l (record_decision lib m salt mode e l)
  unfolding record_decision put_and_record
  record_decision-Noted salt off =
      Written-Noted lib e _ l l _ refl (record_in-Written lib m (unretained e) l)
  record_decision-Noted salt refused_mode = refl
  record_decision-Noted salt store_mode =
      or_unretained-Noted _ (stored-Noted (put lib salt m.now e.content l.store))
