-- ===== src/Project/Examples.antt =====
-- A project and a volume through their methods.
mod Projects
mod Volumes
