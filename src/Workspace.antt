-- ===== src/Workspace.antt =====
-- apps/web/src/operator: the navigation of the console, its tabs and its layout of panes.
pub mod Menu
pub mod Navigation
pub mod Lookup
pub mod Destination
pub mod Reach
pub mod Tabs
pub mod Removal
pub mod TabOpening
pub mod TabClosing
pub mod Docking
pub mod Layouts
mod Examples
