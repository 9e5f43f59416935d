-- ===== src/PolicyStore/Rows.antt =====
-- custos/policy_store.py: the rows of a tenant after deletions and insertions.
use mathlib.Core.List.{append-nil, append_assoc}
use custos_core.Common.{
  String, Bool, true, false, ◌&&◌, ◌||◌, not, ◌≡◌, refl, sym, ap, ◌∙◌, List, [], ◌∷◌, ◌++◌,
  contains, str_eq, arith, eq_iff, str_eq_refl, inl, inr, Bool-cases, Result, ok, err, >>=-eq-ok,
  if◌then◌else◌,
}
use custos_core.PolicyStore.{
  RuleDict, RuleRow, PolicyStoreError, without, rows_of, names, insert_rule, insert_rules,
}

rows_of-append :
    (tenant : String) (rows : List RuleRow) (row : RuleRow)
    → rows_of tenant (rows ++ row ∷ [])
      ≡ rows_of tenant rows ++ (if str_eq row.tenant_id tenant then row.rule ∷ [] else [])
unfolding rows_of
rows_of-append tenant [] row = ground arith
rows_of-append tenant (r ∷ rows) row = ground (arith, rows_of-append tenant rows row)

pub rows_of-without :
    (tenant u : String) (rows : List RuleRow)
    → rows_of u (without tenant rows) ≡ (if str_eq tenant u then [] else rows_of u rows)
unfolding rows_of without
rows_of-without tenant u [] = ground arith
rows_of-without tenant u (r ∷ rows) = ground (
  arith,
  rows_of-without tenant u rows,
  eq_iff tenant u,
  eq_iff r.tenant_id tenant,
  eq_iff r.tenant_id u,
)

insert_rule-rows_of :
    (tenant u : String) (d : RuleDict) (rows rows' : List RuleRow)
    → insert_rule tenant d rows ≡ ok rows'
    → rows_of u rows' ≡ rows_of u rows ++ (if str_eq tenant u then d ∷ [] else [])
unfolding insert_rule
insert_rule-rows_of tenant u d rows rows' h =
    elim (Bool-cases (contains (names (rows_of tenant rows)) d.name)) [
      | inl taken ↦ ground arith
      | inr free ↦
          (let grown : rows ++ record { tenant_id = tenant; rule = d } ∷ [] ≡ rows' =
              ground arith in
            ap (rows_of u) (sym grown)
            ∙ rows_of-append u rows (record { tenant_id = tenant; rule = d }))
    ]

grown :
    {rows rows' : List RuleRow}
    → ◌≡◌ {A = Result PolicyStoreError (List RuleRow)} (ok rows) (ok rows')
    → rows ≡ rows'
grown h = ground arith

pub insert_rules-rows_of :
    (tenant u : String) (ds : List RuleDict) (rows rows' : List RuleRow)
    → insert_rules tenant ds rows ≡ ok rows'
    → rows_of u rows' ≡ rows_of u rows ++ (if str_eq tenant u then ds else [])
unfolding insert_rules
insert_rules-rows_of tenant u [] rows rows' h = elim (Bool-cases (str_eq tenant u)) [
  | inl same ↦ rw same (ap (rows_of u) (sym (grown h)) ∙ sym (append-nil (rows_of u rows)))
  | inr other ↦ rw other (ap (rows_of u) (sym (grown h)) ∙ sym (append-nil (rows_of u rows)))
]
insert_rules-rows_of tenant u (d ∷ ds) rows rows' h =
    let (mid, first, rest) = >>=-eq-ok (insert_rule tenant d rows) (insert_rules tenant ds) h in
    let one = insert_rule-rows_of tenant u d rows mid first in
    let more = insert_rules-rows_of tenant u ds mid rows' rest in
    elim (Bool-cases (str_eq tenant u)) [
      | inl same ↦
          let one' : rows_of u mid ≡ rows_of u rows ++ d ∷ [] = rw same at one in
          let more' : rows_of u rows' ≡ rows_of u mid ++ ds = rw same at more in
          rw same (more' ∙ ap (λ l. l ++ ds) one' ∙ append_assoc (rows_of u rows) (d ∷ []) ds)
      | inr other ↦
          let one' : rows_of u mid ≡ rows_of u rows ++ [] = rw other at one in
          let more' : rows_of u rows' ≡ rows_of u mid ++ [] = rw other at more in
          rw other (more' ∙ append-nil (rows_of u mid) ∙ one')
    ]

-- Whether each rule has a name of its own.
abbrev pub distinct : List RuleDict → Bool
distinct [] = true
distinct (d ∷ ds) = not (contains (names ds) d.name) && distinct ds

abbrev pub clash : List RuleDict → List RuleDict → Bool
clash old [] = false
clash old (d ∷ ds) = contains (names old) d.name || clash old ds

contains-names :
    (old : List RuleDict) (d : RuleDict) (name : String)
    → contains (names (old ++ d ∷ [])) name ≡ (contains (names old) name || str_eq d.name name)
contains-names [] d name = ground arith
contains-names (o ∷ old) d name = ground (arith, contains-names old d name)

clash-append :
    (old ds : List RuleDict) (d : RuleDict)
    → clash (old ++ d ∷ []) ds ≡ (clash old ds || contains (names ds) d.name)
clash-append old [] d = ground arith
clash-append old (e ∷ ds) d = ground (
  arith,
  contains-names old d e.name,
  clash-append old ds d,
  eq_iff d.name e.name,
  eq_iff e.name d.name,
)

abbrev pub is_ok_rows : Result PolicyStoreError (List RuleRow) → Bool
is_ok_rows (ok rows) = true
is_ok_rows (err e) = false

-- Inserts go through exactly if the names are new and distinct.
pub insert_rules-is_ok :
    (tenant : String) (ds : List RuleDict) (rows : List RuleRow)
    → is_ok_rows (insert_rules tenant ds rows)
      ≡ (not (clash (rows_of tenant rows) ds) && distinct ds)
unfolding insert_rules insert_rule
insert_rules-is_ok tenant [] rows = refl
insert_rules-is_ok tenant (d ∷ ds) rows =
    elim (Bool-cases (contains (names (rows_of tenant rows)) d.name)) [
      | inl taken ↦ ground arith
      | inr free ↦
          let mid = rows ++ record { tenant_id = tenant; rule = d } ∷ [] in
          let here : rows_of tenant mid ≡ rows_of tenant rows ++ d ∷ [] = ground (
            arith,
            rows_of-append tenant rows (record { tenant_id = tenant; rule = d }),
            str_eq_refl tenant,
          ) in
          let more = insert_rules-is_ok tenant ds mid in
          ground (arith, here, more, clash-append (rows_of tenant rows) ds d)
    ]
