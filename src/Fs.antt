-- ===== src/Fs.antt =====
-- src/fs: paths, the file system in memory, and the table of mounts.
pub mod Str
pub mod FilePath
pub mod VfsError
pub mod Ramfs
pub mod Vfs
