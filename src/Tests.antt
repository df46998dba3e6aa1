-- ===== src/Tests.antt =====
-- Runs of the theorems on concrete data, on the platform of Sample.antt.
mod Clients
mod Entities
mod Systems
mod Games
mod Worlds
mod Processes
mod Scenes
mod Programs
