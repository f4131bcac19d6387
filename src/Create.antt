-- ===== src/Create.antt =====
-- static/create.js: the page on which a note is written.
pub mod Expiry
pub mod Page
