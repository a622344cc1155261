-- ===== src/Fs.antt =====
-- src/fs: the FAT32 file system from which guest images are loaded, and the loader.
pub mod Fat32
pub mod Loader
