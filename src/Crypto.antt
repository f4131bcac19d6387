-- ===== src/Crypto.antt =====
-- static/crypto.js: base64url and PEM texts, and the hybrid encryption of a note.
pub mod Codec
pub mod Pem
pub mod Web
pub mod Message
