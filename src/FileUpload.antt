-- ===== src/FileUpload.antt =====
-- src/modules/file-upload: the keys under which private uploads are stored.
pub mod Key
mod Tests
