-- ===== src/Storage.antt =====
-- libs/storage: the reader and the writers of libs/storage/src/blob.hpp, the encrypted file of
-- blob.cpp, and the contact store of store.cpp.
pub mod Reader
pub mod Records
pub mod Disk
pub mod Blob
pub mod Store
pub mod IdentityStore
