-- ===== src/Tests.antt =====
-- Examples of the theorems, on small stores with small functions in place of the third-party code.
mod Fixtures
mod Names
mod Users
mod Requests
mod Locks
mod Objects
mod Expiry
mod Sealed
mod Shards
mod Tree
mod Nodes
mod Handlers
mod Startup
mod Uploads
