-- ===== src/Node/Statistics/Usage.antt =====
-- What the statistics of a volume say.
use native.Mathlib.Nat.{mul-le-mul_right}
use csi_sharedhostpath.Base.{
  ℕ, ◌-◌, ◌*◌, ◌^◌, ◌≤◌, ◌<◌, true, false, none, List, [], ◌∷◌, ◌≡◌, ap, ◌∙◌, ◌⊎◌, inl, inr, arith,
  Text,
}
use csi_sharedhostpath.Base.Int.{pos, wrap64, mul64, sub64, wrap64_pos, ◌*ℤ◌, ◌-ℤ◌}
use csi_sharedhostpath.Base.Run.{ok, Result-cases}
use csi_sharedhostpath.Base.Decimal.{parsed_int64}
use csi_sharedhostpath.Base.Strings.{codes, trim_space}
use csi_sharedhostpath.Host.World.{World, Host}
use csi_sharedhostpath.Host.Db.Laws.{DbLaws}
use csi_sharedhostpath.Volumes.Store.{get_volume}
use csi_sharedhostpath.Volumes.Infos.{get_node_publish_volume_info}
use csi_sharedhostpath.Host.Os.{FileInfo}
use csi_sharedhostpath.Host.Os.{Statfs}
use csi_sharedhostpath.Node.Statistics.{
  statistics_of, VolumeUsage, usage_of, device_usage, StatsRequest, usage_at, node_get_volume_stats,
}

mul_pos : (a b : ℕ) → pos a *ℤ pos b ≡ pos (a * b)
unfolding ◌*ℤ◌
mul_pos a b = ground arith

mul64_pos : (a b : ℕ) → a * b < 2 ^ 63 → mul64 (pos a) (pos b) ≡ pos (a * b)
unfolding mul64
mul64_pos a b small = ap wrap64 (mul_pos a b) ∙ wrap64_pos (a * b) small

sub_pos : (a b : ℕ) → b ≤ a → pos a -ℤ pos b ≡ pos (a - b)
unfolding ◌-ℤ◌
sub_pos a b below = ground arith

sub64_pos : (a b : ℕ) → b ≤ a → a < 2 ^ 63 → sub64 (pos a) (pos b) ≡ pos (a - b)
unfolding sub64
sub64_pos a b below small = ap wrap64 (sub_pos a b below) ∙ wrap64_pos (a - b) (omega arith)

module _ (s : Statfs) (b : ℕ) (size : s.bsize ≡ pos b) (available : s.bavail ≤ s.bfree)
    (free : s.bfree ≤ s.blocks) (few : s.blocks < 2 ^ 63) (small : s.blocks * b < 2 ^ 63)
    (free_inodes : s.ffree ≤ s.files) (few_inodes : s.files < 2 ^ 63) where
  -- The statistics of a file system do not overflow and are the numbers of bytes and inodes that
  -- are available, in all and used, if not more blocks are available than free and not more free
  -- than there are, likewise for the inodes, and the numbers of blocks, of bytes and of inodes
  -- are below 2^63.
  pub statistics_of_exact : statistics_of s ≡ record {
    available_bytes = pos (s.bavail * b);
    total_bytes = pos (s.blocks * b);
    used_bytes = pos ((s.blocks - s.bfree) * b);
    available_inodes = pos s.ffree;
    total_inodes = pos s.files;
    used_inodes = pos (s.files - s.ffree);
  }
  unfolding statistics_of
  statistics_of_exact =
      let avail_small : s.bavail * b ≤ s.blocks * b = mul-le-mul_right b (omega arith) in
      let used_small : (s.blocks - s.bfree) * b ≤ s.blocks * b = mul-le-mul_right b (omega arith) in
      rw (
        size,
        wrap64_pos s.bavail (omega arith),
        wrap64_pos s.blocks few,
        wrap64_pos s.bfree (omega arith),
        wrap64_pos s.ffree (omega arith),
        wrap64_pos s.files few_inodes,
        sub64_pos s.blocks s.bfree free few,
        sub64_pos s.files s.ffree free_inodes few_inodes,
        mul64_pos s.bavail b (omega arith),
        mul64_pos s.blocks b small,
        mul64_pos (s.blocks - s.bfree) b (omega arith),
      )

module _ {D F : Type 0} (host : Host D F) (laws : DbLaws host.db) where
  open laws use {tables}

  -- A usage read at a path in a state of the disk: the statistics of a directory's file system, or
  -- the number that `blockdev` printed, which is 0 if it printed none.
  abbrev pub IsUsage : Text → FileInfo → F → List VolumeUsage → Type 0
  IsUsage path fi s usage =
      ((fi.is_dir ≡ true)
        × (statfs : Statfs) × ((host.os.statfs path s).0 ≡ ok statfs)
        × (usage ≡ usage_of (statistics_of statfs)))
      ⊎ ((fi.is_dir ≡ false)
          × ((host.os.command (codes "blockdev" ∷ codes "--getsize64" ∷ path ∷ []) s).0.1 ≡ none)
          × (usage
              ≡ device_usage (
                  parsed_int64 (
                    trim_space
                      (host.os.command (codes "blockdev" ∷ codes "--getsize64" ∷ path ∷ [])
                        s).0.0))))

  usage_at-db :
      (path : Text) (fi : FileInfo) (w : World D F) → (usage_at host path fi w).1.db ≡ w.db
  unfolding usage_at
  usage_at-db path fi w = ground arith

  pub node_get_volume_stats-tables :
      (node : Text) (req : StatsRequest) (w : World D F)
      → tables (node_get_volume_stats host node req w).1.db ≡ tables w.db
  unfolding node_get_volume_stats get_volume get_node_publish_volume_info
  node_get_volume_stats-tables node req w =
      let read = (host.db.first_volume_by_id req.volume_id w.db).1 in
      let read' = (host.db.first_node_info req.volume_id node req.volume_path read).1 in
      let (fi, s) = host.os.stat req.volume_path w.os in
      let asked : World D F = record { db = read'; os = s } in
      elim (Result-cases fi) [
        | inr (e, missing) ↦ ground (
          arith,
          laws.first_by_id req.volume_id w.db,
          laws.first_node_info_lem req.volume_id node req.volume_path read,
        )
        | inl (info, found) ↦ ground (
          arith,
          laws.first_by_id req.volume_id w.db,
          laws.first_node_info_lem req.volume_id node req.volume_path read,
          usage_at-db req.volume_path info asked,
        )
      ]
