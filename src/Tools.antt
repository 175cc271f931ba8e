-- ===== src/Tools.antt =====
-- The tools of an answer: app/tools.
pub mod Calculator
pub mod Clock
