-- ===== src/Fs/Fat32/Open/Nodes.antt =====
-- Open on a volume that was just mounted follows a null pointer.
