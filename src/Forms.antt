-- ===== src/Forms.antt =====
-- main.js: the fields of a form, collected into the parameters of a request.
pub mod Literal
pub mod Fields
pub mod Collapse
pub mod Order
pub mod Parents
pub mod Kept
pub mod Complaints
pub mod Visits
pub mod Magic
