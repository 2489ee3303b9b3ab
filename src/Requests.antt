-- ===== src/Requests.antt =====
-- main.js: how the console makes the paths of its requests to the HTTP API.
pub mod Template
pub mod Paths
pub mod Query
pub mod Cast
pub mod Sync
pub mod Passwords
