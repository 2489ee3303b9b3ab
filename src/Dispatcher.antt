-- ===== src/Dispatcher.antt =====
-- dispatcher.js: the routes of the console. A route is a verb, a pattern and a handler; Sammy, which
-- matches the location against the patterns, is a library. A handler is the list of what it does.
pub mod Defs
pub mod Overview
pub mod Messaging
pub mod Queues
pub mod Vhosts
pub mod Users
pub mod Policies
pub mod System
pub mod Routes
pub mod Failures
