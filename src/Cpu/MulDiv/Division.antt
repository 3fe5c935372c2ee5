-- ===== src/Cpu/MulDiv/Division.antt =====
-- What DIVU computes.
