-- ===== src/Tests.antt =====
-- Tests of the model on inputs that can be followed in the source, and each theorem that has
-- hypotheses at an input that meets them.
mod Bank
mod Wire
mod Client
mod Election
mod Cluster
mod System
mod Threads
mod Heartbeat
mod Discovery
mod Failover
