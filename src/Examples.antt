-- ===== src/Examples.antt =====
-- Runs of the models on small inputs.
mod BigInt
mod Bulk
mod BulkServer
mod IpFilter
mod Join
mod ThreadPool
mod Bayan
mod Async
mod Trains
mod ByteOrder
mod Balconies
mod Matrix
mod Container
