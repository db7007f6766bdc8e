-- ===== src/Ulib/Tests.antt =====
-- The theorems on ulib.c at concrete buffers.
