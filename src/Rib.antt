-- ===== src/Rib.antt =====
-- daemon/rib: the routing information base.
pub mod Entry
pub mod Announcement
