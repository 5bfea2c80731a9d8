-- ===== src/Tools.antt =====
-- tools: the development tools, of which xlsx-discover's comparison of register maps.
pub mod Comparison
