-- ===== src/Node/Statistics.antt =====
-- `getStatistics` and `getBlockDeviceSize` of internal/sharedhostpath/utils_linux.go, and
-- `NodeGetVolumeStats`.
pub mod Usage
use csi_sharedhostpath.Base.{
  ℕ, Bool, true, false, not, Option, none, some, List, [], ◌∷◌, ◌++◌, Text, if◌then◌else◌,
}
use csi_sharedhostpath.Base.Decimal.{parsed_int64}
use csi_sharedhostpath.Base.Int.{ℤ, pos, wrap64, mul64, sub64}
use csi_sharedhostpath.Base.Run.{
  Result, ok, err, Run, ◌>>=◌, ◌>>◌, return, return_if, act, try, check, give, call,
}
use csi_sharedhostpath.Base.Strings.{codes, is_empty, trim_space}
use csi_sharedhostpath.Controller.Requests.{Code, invalid_argument, not_found, internal}
use csi_sharedhostpath.Host.Db.{Err, failed}
use csi_sharedhostpath.Host.Os.{Os, FileInfo, Statfs}
use csi_sharedhostpath.Host.World.{World, Host, on_os}
use csi_sharedhostpath.Volumes.Infos.{get_node_publish_volume_info}
use csi_sharedhostpath.Volumes.Store.{get_volume}

pub record VolumeStatistics : Type 0 where
  pub available_bytes : ℤ
  pub total_bytes : ℤ
  pub used_bytes : ℤ
  pub available_inodes : ℤ
  pub total_inodes : ℤ
  pub used_inodes : ℤ

-- `int64(n)` of an unsigned number.
abbrev to_int64 : ℕ → ℤ
to_int64 n = wrap64 (pos n)

unfoldable pub statistics_of : Statfs → VolumeStatistics
unfolding wrap64 mul64 sub64
statistics_of statfs = record {
  available_bytes = mul64 (to_int64 statfs.bavail) statfs.bsize;
  total_bytes = mul64 (to_int64 statfs.blocks) statfs.bsize;
  used_bytes = mul64 (sub64 (to_int64 statfs.blocks) (to_int64 statfs.bfree)) statfs.bsize;
  available_inodes = to_int64 statfs.ffree;
  total_inodes = to_int64 statfs.files;
  used_inodes = sub64 (to_int64 statfs.files) (to_int64 statfs.ffree);
}

module _ {F : Type 0} (os : Os F) where
  -- `getStatistics`
  unfoldable pub get_statistics : Text → F → Result Err VolumeStatistics × F
  get_statistics path =
      call (do statfs ← try (os.statfs path) (give err); return (ok (statistics_of statfs)))

  abbrev ran : List Text → F → Result Err Text × F
  ran args s =
      let ((output, e), s') = os.command args s in
      elim e [ none ↦ (ok output, s') | some failure ↦ (err failure, s') ]

  -- `getBlockDeviceSize`; the error of `ParseInt` is dropped.
  unfoldable pub get_block_device_size : Text → F → Result Err ℤ × F
  unfolding parsed_int64 trim_space
  get_block_device_size device = call (do
    output ←
        try (ran (codes "blockdev" ∷ codes "--getsize64" ∷ device ∷ []))
          (give (λ e. err (failed (codes "cannot get block device size"))))
    return (ok (parsed_int64 (trim_space output))))

pub data UsageUnit : Type 0 where
  bytes inodes : UsageUnit

pub record VolumeUsage : Type 0 where
  pub unit : UsageUnit
  pub available : ℤ
  pub total : ℤ
  pub used : ℤ

-- The condition of a volume is never abnormal here.
pub record StatsResponse : Type 0 where
  pub usage : List VolumeUsage
  pub abnormal : Bool
  pub message : Text

pub record StatsRequest : Type 0 where
  pub volume_id : Text
  pub volume_path : Text

abbrev pub usage_of : VolumeStatistics → List VolumeUsage
usage_of stats =
    record {
      unit = bytes;
      available = stats.available_bytes;
      total = stats.total_bytes;
      used = stats.used_bytes;
    }
    ∷ record {
      unit = inodes;
      available = stats.available_inodes;
      total = stats.total_inodes;
      used = stats.used_inodes;
    }
    ∷ []

abbrev pub device_usage : ℤ → List VolumeUsage
device_usage size = record { unit = bytes; available = pos 0; total = size; used = pos 0 } ∷ []

module _ {D F : Type 0} (host : Host D F) where
  abbrev W : Type 0
  W = World D F

  abbrev pub in_order : List VolumeUsage → StatsResponse
  in_order usage = record { usage = usage; abnormal = false; message = codes "ok" }

  -- The usage of a mounted file system, or of a device.
  unfoldable pub usage_at : Text → FileInfo → W → Result Code StatsResponse × W
  unfolding get_statistics get_block_device_size
  usage_at path fi w =
      let for_directory =
        call
          (do
            stats ← try (on_os (get_statistics host.os path)) (give (λ e. err internal))
            return (ok (in_order (usage_of stats))))
          w in
      let for_device =
        call
          (do
            size ← try (on_os (get_block_device_size host.os path)) (give (λ e. err internal))
            return (ok (in_order (device_usage size))))
          w in
      if fi.is_dir then for_directory else for_device

  -- `NodeGetVolumeStats`
  unfoldable pub node_get_volume_stats : Text → StatsRequest → W → Result Code StatsResponse × W
  node_get_volume_stats node req = call (do
    return_if (is_empty req.volume_id) (err invalid_argument)
    return_if (is_empty req.volume_path) (err invalid_argument)
    vol ← try (get_volume host req.volume_id) (give (λ e. err not_found))
    npvi ←
        try (get_node_publish_volume_info host req.volume_id node req.volume_path)
          (give (λ e. err not_found))
    fi ← try (on_os (host.os.stat req.volume_path)) (give (λ e. err internal))
    act (usage_at req.volume_path fi))
