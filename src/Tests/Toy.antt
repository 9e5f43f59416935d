-- ===== src/Tests/Toy.antt =====
-- A library whose hash is the text itself, and the records, chains and anchors that the tests share.
use Prim.Native.String.{◌++◌}
use custos_core.Common.{String, none, some, [], ◌∷◌}
use custos_core.Audit.Record.{
  AuditRecord, Json, null, number, text, gap_object, texts, Fields, Library, commitment_none,
}
use custos_core.Audit.Store.{sqlite}
use custos_core.Audit.Chain.{Chain, Entry, Moment}

abbrev show : Json → String
show null = "null"
show (number n) = "n"
show (text s) = s
show (gap_object f a s t) = s
show (texts xs) = "l"

abbrev show_fields : Fields → String
show_fields [] = ""
show_fields ((k, v) ∷ fields) = show v ++ ("," ++ show_fields fields)

abbrev pub toy : Library
toy = record { sha256 = λ s. s; dumps = show_fields; lower = λ s. s; strip_lower = λ s. s }

abbrev pub noon : Moment
noon = record { now = 5; require_bound = none; custos_env = none; fault = none }

abbrev pub entry : Entry
entry = record {
  client_id = "client";
  action = "allow";
  reason = "ok";
  content = "hello";
  triggered_rule = none;
  trace_id = some "t1";
  policy_digest = some "d1";
  tenant_id = none;
  commitment = commitment_none;
}

abbrev pub denial : Entry
denial = record entry { action = "deny"; trace_id = some "t2" }

abbrev pub acme : Chain
acme = record { records = []; tenant_id = some "acme"; backend = sqlite }

-- The record that `entry` makes of the empty chain.
abbrev pub first_record : AuditRecord
first_record = record {
  timestamp = 5;
  client_id = "client";
  action = "allow";
  triggered_rule = none;
  reason = "ok";
  content_hash = "hello";
  record_hash =
      "n,client,allow,null,ok,hello,0000000000000000000000000000000000000000000000000000000000000000,d1,acme,v2,t1,none,";
  previous_hash = "0000000000000000000000000000000000000000000000000000000000000000";
  trace_id = some "t1";
  policy_digest = some "d1";
  tenant_id = some "acme";
  binding_version = 2;
  commitment = "none";
}

abbrev pub acme_one : Chain
acme_one = record acme { records = first_record ∷ [] }
