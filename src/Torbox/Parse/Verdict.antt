-- ===== src/Torbox/Parse/Verdict.antt =====
-- What a status and a link say for sure.
