-- ===== src/Ui.antt =====
-- resilient-lib/resilient_lib/ui: the elements of a tab, and how a tab or the summary of incidents is
-- created and brought up to date in the layouts of the server.
pub mod Elements
pub mod Layouts
pub mod Completed
pub mod Conditions
pub mod SelectConditions
pub mod Valueless
pub mod Created
pub mod Summary
