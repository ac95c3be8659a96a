-- ===== src/FileStorage.antt =====
-- filestorage: files and their metadata, kept in two stores (metadata.go, metadata_store.go,
-- wrapper.go).
pub mod Documents
pub mod Metadata
pub mod Wrapper
