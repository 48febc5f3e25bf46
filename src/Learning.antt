-- ===== src/Learning.antt =====
-- app/learning: what is learned from runs, and who may trust it.
mod Skills
