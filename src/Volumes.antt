-- ===== src/Volumes.antt =====
-- `VolumeHelper` of internal/sharedhostpath/utils.go: the records of volumes and their files. The
-- log lines, and the deferred rollback after a panic, are left out. A struct that the source
-- returns by pointer is a value here: `GetVolume` returns nil exactly with ErrRecordNotFound.
pub mod Paths
pub mod Opening
pub mod Files
pub mod Store
pub mod Infos
pub mod Details
pub mod Cleanup
