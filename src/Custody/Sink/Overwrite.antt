-- ===== src/Custody/Sink/Overwrite.antt =====
-- custos/custody.py: what a second write to one path of the git sink leaves of the first.
use custos_core.Common.{
  ℕ, String, ◌≡◌, refl, none, [], ◌∷◌, arith, eq_iff, str_eq_refl, ap, sym, ◌∙◌,
}
use custos_core.Common.Dict.{lookup}
use custos_core.Custody.Anchor.{AnchorRecord, PolicyCommitRecord, AnchorEntry, head, policy_commit}
use custos_core.Audit.Record.{Library}
use custos_core.Custody.Manager.{
  Manager, Commitment, tenant_state, policy_state_of, next_anchor, next_commit,
}
use custos_core.Custody.Sink.{GitFiles, write_file, git_append, load_anchors}

write_file-write_file :
    (p : String × ℕ) (old new : AnchorEntry) (files : GitFiles)
    → write_file p new (write_file p old files) ≡ write_file p new files
unfolding write_file
write_file-write_file p old new [] = ground (arith, str_eq_refl p.0)
write_file-write_file p old new ((q, e) ∷ files) =
    ground (arith, str_eq_refl p.0, eq_iff q.0 p.0, write_file-write_file p old new files)

-- A policy commit of a tenant's epoch takes the file of the tenant's head anchor of that epoch: the
-- log read back is the one of a sink that was never given the head anchor.
git_append-git_append :
    (a : AnchorRecord) (c : PolicyCommitRecord) (files : GitFiles)
    → a.tenant_id ≡ c.tenant_id
    → a.epoch ≡ c.epoch
    → load_anchors (git_append (policy_commit c) (git_append (head a) files))
      ≡ load_anchors (git_append (policy_commit c) files)
unfolding git_append
git_append-git_append a c files t e =
    simp (t, e)
      (ap load_anchors
        (write_file-write_file (c.tenant_id, c.epoch) (head a) (policy_commit c) files))

-- The first head anchor and the first policy commit that the manager makes for a tenant both have the epoch 1, and
-- the git sink writes them to one file: given the commit after the anchor, at any moments, it reads back as if it
-- had never been given the anchor.
pub next_commit-overwrites :
    (lib : Library) (m : Manager) (c : Commitment) (n : ℕ) (head_hash now utc : String)
    (files : GitFiles)
    → lookup c.tenant_id m.state ≡ none
    → lookup c.tenant_id m.policy_state ≡ none
    → let a = next_anchor lib (tenant_state c.tenant_id m) c.tenant_id n head_hash now in
      let p = next_commit lib (policy_state_of c.tenant_id m) c utc in
      (a.epoch ≡ 1)
      × (p.epoch ≡ 1)
      × (load_anchors (git_append (policy_commit p) (git_append (head a) files))
          ≡ load_anchors (git_append (policy_commit p) files))
unfolding tenant_state policy_state_of
next_commit-overwrites lib m c n head_hash now utc files unanchored uncommitted =
    let a = next_anchor lib (tenant_state c.tenant_id m) c.tenant_id n head_hash now in
    let p = next_commit lib (policy_state_of c.tenant_id m) c utc in
    let first : a.epoch ≡ 1 = rw unanchored refl in
    let too : p.epoch ≡ 1 = rw uncommitted refl in
    (first, too, git_append-git_append a p files refl (first ∙ sym too))
