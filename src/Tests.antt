-- ===== src/Tests.antt =====
-- The theorems applied to concrete data.
mod Data
mod Reverse
mod Auth
mod Proxy
mod Hosts
mod Tunnel
mod RawServe
mod IoX
mod NetMonitor
mod ForwardClient
mod LinuxPages
mod Server
mod Main
mod Metrics
mod Concurrent
