-- ===== src/Storage.antt =====
-- src/chatterbox_manga_studio/services/storage_manager/: the stores behind StorageManager.
pub mod Digest
pub mod Kv
pub mod Queue
mod Samples
