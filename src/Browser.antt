-- ===== src/Browser.antt =====
-- web/src/components/Browser.tsx: uploading files into the browsed folder.
pub mod Wiring
pub mod Uploads
