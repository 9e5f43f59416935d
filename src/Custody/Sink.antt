-- ===== src/Custody/Sink.antt =====
-- custos/custody.py: the sinks. A memory sink keeps every entry that it accepts; a git sink writes the
-- file anchors/<tenant>/epoch-<n>.json and reads every such file back, in the order of the epochs.
-- The git commands themselves are not modelled: a commit that fails is an outage.
pub mod Overwrite
use custos_core.Common.{
  ℕ, ◌++◌, String, Bool, true, false, ◌&&◌, Option, none, some, List, [], ◌∷◌, str_eq, ◌==◌,
  sort_by, if◌then◌else◌,
}
use custos_core.Custody.Anchor.{AnchorEntry, entry_tenant, entry_epoch}

pub record MemorySink : Type 0 where
  pub name : String
  pub anchors : List AnchorEntry
  pub failing : Bool

-- `MemorySink.append`: the sink afterwards, and whether the call returned.
unfoldable pub append : AnchorEntry → MemorySink → MemorySink × Bool
append entry sink =
    if sink.failing
    then (sink, false)
    else (record sink { anchors = sink.anchors ++ entry ∷ [] }, true)

abbrev pub healthcheck : MemorySink → Bool
healthcheck sink = if sink.failing then false else true

-- The path below anchors/: the tenant's directory and the epoch in the file's name.
abbrev pub GitFiles : Type 0
GitFiles = List ((String × ℕ) × AnchorEntry)

abbrev pub same_path : String × ℕ → String × ℕ → Bool
same_path p q = str_eq p.0 q.0 && p.1 == q.1

unfoldable pub write_file : String × ℕ → AnchorEntry → GitFiles → GitFiles
write_file p entry [] = (p, entry) ∷ []
write_file p entry ((q, old) ∷ files) =
    if same_path q p then (p, entry) ∷ files else (q, old) ∷ write_file p entry files

-- `GitAnchorSink.append`, where every command succeeds.
unfoldable pub git_append : AnchorEntry → GitFiles → GitFiles
unfolding write_file
git_append entry files = write_file (entry_tenant entry, entry_epoch entry) entry files

contents : GitFiles → List AnchorEntry
contents [] = []
contents ((p, entry) ∷ files) = entry ∷ contents files

-- `GitAnchorSink.load_anchors`: the contents of the files, stably sorted by epoch.
unfoldable pub load_anchors : GitFiles → List AnchorEntry
unfolding contents
load_anchors files = sort_by entry_epoch (contents files)
