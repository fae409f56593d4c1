-- ===== src/Tests/Assets.antt =====
-- Concrete runs of the pages about assets.
