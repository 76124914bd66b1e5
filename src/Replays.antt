-- ===== src/Replays.antt =====
-- Package file/w3g: replay files.
pub mod Header
