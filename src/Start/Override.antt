-- ===== src/Start/Override.antt =====
-- The settings that main of main.cpp starts the daemon with.
