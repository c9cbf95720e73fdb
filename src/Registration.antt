-- ===== src/Registration.antt =====
-- Which tools a server registers, src/server.ts, and the presigned-URL tool of src/s3/presigned.ts
-- with the operations that its registration allows.
pub mod Surface
pub mod Presigned
pub mod Laws
mod Tests
