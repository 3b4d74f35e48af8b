-- ===== src/Tests.antt =====
-- Runs of the model on concrete input.
mod Cache
mod Limiter
mod Names
mod Outbound
mod Logs
mod Proxy
mod Requests
mod Served
mod Users
mod Settings
mod Streams
mod Workers
mod Threads
