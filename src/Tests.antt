-- ===== src/Tests.antt =====
-- Tests of the model and instances of its theorems.
mod Codec
mod Frames
mod Sessions
mod Systems
mod Servers
mod Connections
mod Proxy
mod Clients
mod Controls
mod Deliveries
mod Processes
mod Brokers
mod Told
mod Handlers
mod Upstreams
