-- ===== src/Prefs.antt =====
-- prefs.js: what the console keeps in the browser: preferences in the local storage, the session marker
-- in a cookie, and the credentials.
pub mod Escape
pub mod Codec
pub mod Hash
pub mod Cookie
pub mod CookieText
pub mod Store
pub mod Session
pub mod Marks
pub mod Writes
pub mod Account
pub mod Kept
pub mod Logins
pub mod Refinement
