-- ===== src/Disk.antt =====
-- Disk images and the codecs of disk tracks.
pub mod Gcr
pub mod Bytes
pub mod Crc
pub mod DiskCopy
pub mod MacBinary
pub mod Mfm
pub mod Tests
