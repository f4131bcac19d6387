-- ===== src/Share.antt =====
-- static/share.js: opening a note.
pub mod Reveal
pub mod Page
