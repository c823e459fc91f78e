-- ===== src/Vfs.antt =====
-- The operations of usr/src/uts/common/fs/fusefs/fusefs_vfsops.c.
pub mod Mount
pub mod Statvfs
pub mod Unmount
