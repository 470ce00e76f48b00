-- ===== src/Json/Nodes/Whole.antt =====
-- A document from its text to what is read from it.
