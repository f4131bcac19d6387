-- ===== src/Js.antt =====
-- What the source uses of JavaScript and of the browser's text functions: strings as code units,
-- `btoa` and `atob`, UTF-8, percent-encoding and `URLSearchParams`, after the standards.
pub mod Base64
pub mod Utf8
pub mod Url
pub mod Number
