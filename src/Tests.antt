-- ===== src/Tests.antt =====
-- Runs of the operator on concrete objects, against the cluster and the server of `Cluster`.
mod Objects
mod Cluster
mod Aliases
mod Rules
mod Settled
mod Parts
mod Guards
mod Protocols
mod RoundTrips
mod Starting
mod Copying
mod Rejections
mod Orphans
