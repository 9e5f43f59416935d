-- ===== src/Retention/Keeps.antt =====
-- custos/retention.py: the invariant between the records and the store, and which operations keep it.
use custos_core.Common.{
  ℕ, String, ◌++◌, ◌≡◌, ◌≢◌, refl, sym, ap, subst, ◌∙◌, Bool, true, false, ◌||◌, ◌&&◌, not, List,
  [], ◌∷◌, arith, All, eq_iff, str_eq, str_eq_refl, ◌⊎◌, inl, inr, Option-cases, Result, ok, err,
  if◌then◌else◌,
}
use custos_core.Common.Dict.{lookup, insert, lookup-insert, All-insert, All-lookup}
use custos_core.Audit.Record.{
  AuditRecord, AuditError, Library, commitment_none, commitment_purged_v1, commitment_salted_v1,
  commitment_unsalted_v0,
}
use custos_core.Audit.Chain.{Chain, Entry, Moment, record_entry}
use custos_core.Audit.Chain.Appends.{IsNext}
use custos_core.Audit.Chain.Integrity.{Appends, record_entry-Appends}
use custos_core.Retention.{
  Body, ContentStore, ContentError, Status, present, purged, unknown, status, salted_body, put,
  marker_at, commitment_form, form_of_marker,
}
use custos_core.Retention.Reconcile.{is_purge, is_stored}
use custos_core.Retention.Decision.{Ledger, chain_result, record_in}

abbrev pub attests : AuditRecord → String → Bool
attests r h = is_purge r && str_eq r.content_hash h

abbrev pub claims_at : AuditRecord → String → Bool
claims_at r h = not (is_purge r) && (is_stored r && str_eq r.content_hash h)

-- Whether some record attests the purge of a digest, and whether some record claims a stored form of it.
abbrev pub attested : List AuditRecord → String → Bool
attested [] h = false
attested (r ∷ rs) h = attests r h || attested rs h

abbrev pub claimed : List AuditRecord → String → Bool
claimed [] h = false
claimed (r ∷ rs) h = claims_at r h || claimed rs h

-- What the records say of a digest (claimed, attested), against what the store says.
abbrev pub agree : Bool → Bool → Status → Bool
agree c a present = not a
agree c a purged = a || not c
agree c a unknown = not c && not a

-- A stored body stands under its hash, in one of the two stored forms.
abbrev pub IsKept : Library → String × Body → Type 0
IsKept lib (h, b) =
    (lib.sha256 b.body ≡ h) × ((b.marker ≡ "salted-v1") ⊎ (b.marker ≡ "unsalted-v0"))

pub record Sound (lib : Library) (records : List AuditRecord) (s : ContentStore) : Type 0 where
  pub agrees : (h : String) → agree (claimed records h) (attested records h) (status h s) ≡ true
  pub kept : All (IsKept lib) s.bodies

pub attested-append :
    (rs : List AuditRecord) (r : AuditRecord) (h : String)
    → attested (rs ++ r ∷ []) h ≡ (attested rs h || attests r h)
attested-append [] r h = ground arith
attested-append (s ∷ rs) r h = ground (arith, attested-append rs r h)

pub claimed-append :
    (rs : List AuditRecord) (r : AuditRecord) (h : String)
    → claimed (rs ++ r ∷ []) h ≡ (claimed rs h || claims_at r h)
claimed-append [] r h = ground arith
claimed-append (s ∷ rs) r h = ground (arith, claimed-append rs r h)

-- A record is written to the end of the chain, or the call raises and the chain stays; the store stays.
abbrev pub Written : Library → Entry → Ledger → Result ContentError AuditRecord × Ledger → Type 0
Written lib e l (ok r, l') =
    IsNext lib e l.chain r
    × (l'.chain ≡ record l.chain { records = l.chain.records ++ r ∷ [] })
    × (l'.store ≡ l.store)
Written lib e l (err x, l') = (l'.chain ≡ l.chain) × (l'.store ≡ l.store)

Written-Appends :
    (lib : Library) (e : Entry) (l : Ledger)
    (out : Result AuditError AuditRecord × Chain × List AuditRecord)
    → Appends lib e l.chain l.rows out
    → Written lib e l (chain_result out.0, record l { chain = out.1; rows = out.2 })
Written-Appends lib e l (ok r, c', rows') (next, grown, after, fresh) = (next, grown, refl)
Written-Appends lib e l (err x, c', rows') (same, after) = (same, refl)

pub record_in-Written :
    (lib : Library) (m : Moment) (e : Entry) (l : Ledger) → Written lib e l (record_in lib m e l)
unfolding record_in
record_in-Written lib m e l =
    Written-Appends lib e l (record_entry lib m e l.chain l.rows)
      (record_entry-Appends lib m e l.chain l.rows)

-- After a write, the ledger is sound if the old records, and the new one, agree with the store.
pub Written-Sound :
    (lib : Library) (e : Entry) (l : Ledger) (out : Result ContentError AuditRecord × Ledger)
    → Written lib e l out
    → Sound lib l.chain.records l.store
    → ((r : AuditRecord) → IsNext lib e l.chain r → Sound lib (l.chain.records ++ r ∷ []) l.store)
    → Sound lib out.1.chain.records out.1.store
Written-Sound lib e l (ok r, l') (next, grown, same) h more =
    subst (λ (c : Chain). Sound lib c.records l'.store) (sym grown)
      (subst (Sound lib (l.chain.records ++ r ∷ [])) (sym same) (more r next))
Written-Sound lib e l (err x, l') (still, same) h more =
    subst (λ (c : Chain). Sound lib c.records l'.store) (sym still)
      (subst (Sound lib l.chain.records) (sym same) h)

-- A record of no stored form claims and attests nothing.
pub unretained-Sound :
    (lib : Library) (records : List AuditRecord) (s : ContentStore) (r : AuditRecord)
    → Sound lib records s
    → r.commitment ≡ commitment_none
    → Sound lib (records ++ r ∷ []) s
unretained-Sound lib records s r h none_form = record {
  agrees = λ k.
      let no_purge : is_purge r ≡ false = ap (λ c. str_eq c commitment_purged_v1) none_form in
      let no_salted : str_eq r.commitment commitment_salted_v1 ≡ false =
        ap (λ c. str_eq c commitment_salted_v1) none_form in
      let no_plain : str_eq r.commitment commitment_unsalted_v0 ≡ false =
        ap (λ c. str_eq c commitment_unsalted_v0) none_form in
      ground (arith, claimed-append records r k, attested-append records r k, h.agrees k);
  kept = h.kept;
}

status-put :
    (lib : Library) (salt : String) (now : ℕ) (body : String) (s s' : ContentStore) (h : String)
    → put lib salt now body s ≡ ok s'
    → status h s' ≡ (if str_eq (lib.sha256 body) h then present else status h s)
unfolding put status
status-put lib salt now body s s' h e = grind (arith, lookup-insert, eq_iff (lib.sha256 body) h)

put-ne-purged :
    (lib : Library) (salt : String) (now : ℕ) (body : String) (s s' : ContentStore)
    → put lib salt now body s ≡ ok s'
    → status (lib.sha256 body) s ≢ purged
unfolding put status
put-ne-purged lib salt now body s s' e h = ground arith

pub put-bodies :
    (lib : Library) (salt : String) (now : ℕ) (body : String) (s s' : ContentStore)
    → put lib salt now body s ≡ ok s'
    → (s'.bodies ≡ s.bodies)
      ⊎ (s'.bodies ≡ insert (lib.sha256 body) (salted_body lib salt now body) s.bodies)
unfolding put
put-bodies lib salt now body s s' e = ground arith

pub put-IsKept :
    (lib : Library) (salt : String) (now : ℕ) (body : String) (s s' : ContentStore)
    → put lib salt now body s ≡ ok s'
    → All (IsKept lib) s.bodies
    → All (IsKept lib) s'.bodies
unfolding salted_body
put-IsKept lib salt now body s s' e h = elim (put-bodies lib salt now body s s' e) [
  | inl same ↦ rw same h
  | inr more ↦ rw more (All-insert (IsKept lib) _ _ s.bodies (refl, inl refl) h)
]

-- After a `put`, the records agree with the store, also before the decision is recorded.
pub put-Sound :
    (lib : Library) (records : List AuditRecord) (salt : String) (now : ℕ) (body : String)
    (s s' : ContentStore)
    → put lib salt now body s ≡ ok s'
    → Sound lib records s
    → Sound lib records s' × (status (lib.sha256 body) s' ≡ present)
put-Sound lib records salt now body s s' e h =
    let now_here : status (lib.sha256 body) s' ≡ present =
      rw (status-put lib salt now body s s' (lib.sha256 body) e, str_eq_refl (lib.sha256 body))
        refl in
    let put_agrees : (k : String)
        → agree (claimed records k) (attested records k) (status k s') ≡ true =
      λ k. grind (
        arith,
        status-put lib salt now body s s' k e,
        put-ne-purged lib salt now body s s' e,
        h.agrees k,
        eq_iff (lib.sha256 body) k,
      ) in
    (record { agrees = put_agrees; kept = put-IsKept lib salt now body s s' e h.kept }, now_here)

-- The form of a body that is present is a stored form.
pub commitment_form-present :
    (lib : Library) (h : String) (s : ContentStore)
    → All (IsKept lib) s.bodies
    → status h s ≡ present
    → (commitment_form h s ≡ commitment_salted_v1) ⊎ (commitment_form h s ≡ commitment_unsalted_v0)
unfolding commitment_form status
commitment_form-present lib h s kept e = elim (Option-cases (lookup h s.bodies)) [
  | inl gone ↦ ground arith
  | inr (b, found) ↦
      let (_, form) = All-lookup (IsKept lib) h b s.bodies found kept in
      let seen : marker_at h s ≡ b.marker = unfold marker_at in ground arith in
      elim form [
        | inl salted ↦ inl (ap form_of_marker (seen ∙ salted))
        | inr plain ↦ inr (ap form_of_marker (seen ∙ plain))
      ]
]

stored_no_purge :
    (r : AuditRecord)
    → (r.commitment ≡ commitment_salted_v1) ⊎ (r.commitment ≡ commitment_unsalted_v0)
    → is_purge r ≡ false
stored_no_purge r (inl salted) = ap (λ c. str_eq c commitment_purged_v1) salted
stored_no_purge r (inr plain) = ap (λ c. str_eq c commitment_purged_v1) plain

-- A record of a stored form of a body that is present.
pub stored-Sound :
    (lib : Library) (records : List AuditRecord) (s : ContentStore) (r : AuditRecord)
    → Sound lib records s
    → status r.content_hash s ≡ present
    → (r.commitment ≡ commitment_salted_v1) ⊎ (r.commitment ≡ commitment_unsalted_v0)
    → Sound lib (records ++ r ∷ []) s
stored-Sound lib records s r h here form = record {
  agrees = λ k.
      let no_purge : is_purge r ≡ false = stored_no_purge r form in
      ground (
        arith,
        claimed-append records r k,
        attested-append records r k,
        here,
        h.agrees k,
        eq_iff r.content_hash k,
      );
  kept = h.kept;
}
