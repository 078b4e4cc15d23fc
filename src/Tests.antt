-- ===== src/Tests.antt =====
-- Runs of the models at concrete inputs, and the theorems applied there.
mod Queue
mod Refined
mod Folders
mod Delivery
mod Ids
mod Client
mod Gateway
mod Server
mod Nodes
mod Manager
