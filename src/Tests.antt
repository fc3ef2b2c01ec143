-- ===== src/Tests.antt =====
-- Runs of the models on small inputs, and the theorems at concrete inputs.
mod WebSocket
mod Filter
mod Subscription
mod ResultSet
mod SlotPage
mod Query
mod Disk
mod Buffer
mod Response
mod Wal
