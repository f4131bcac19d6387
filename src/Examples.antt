-- ===== src/Examples.antt =====
-- The theorems at concrete inputs: static/crypto.js with a small browser, links, replies and pages.
mod Browser
mod MiniRedis
mod Servers
mod Configured
mod Delivered
mod Deployed
mod Limits
mod Resent
mod Checks
mod Codecs
mod Notes
mod Links
mod Replies
mod Pages
mod Writing
