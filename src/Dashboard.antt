-- ===== src/Dashboard.antt =====
-- src/dashboard.py: what one round of the stream of events sends.
pub mod Stream
pub mod Snapshot
pub mod Serve
pub mod Events
pub mod Told
pub mod Delivered
use custom_network_proxy_ser.Base.{ℕ, ◌-◌, List, [], ltb, if◌then◌else◌, length, take_last}
use custom_network_proxy_ser.LogSchema.{Fields}
use custom_network_proxy_ser.Logger.{Logger}

-- The part of the loop under the ring's lock: the entries to send, and the new `last_log_count`.
unfoldable pub new_entries : ℕ → Logger → List Fields × ℕ
new_entries last_log_count l =
    let current_count = length l.log_ring_buffer in
    if ltb last_log_count current_count
    then (take_last (current_count - last_log_count) l.log_ring_buffer, current_count)
    else if ltb current_count last_log_count
    then (take_last 5 l.log_ring_buffer, current_count)
    else ([], last_log_count)
