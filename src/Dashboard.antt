-- ===== src/Dashboard.antt =====
-- dashboard/src: the logic of the React client, without what it renders.
pub mod Api
pub mod Rooms
pub mod Uploads
pub mod Batches
pub mod Editors
pub mod Charts
pub mod Zone
pub mod Paging
