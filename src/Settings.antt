-- ===== src/Settings.antt =====
-- What the pages keep in the preferences.
pub mod Sections
pub mod Remembered
pub mod Clicks
pub mod Ranges
pub mod Periods
pub mod Interval
