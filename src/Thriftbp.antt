-- ===== src/Thriftbp.antt =====
-- thriftbp: the pool of Thrift clients, its clients, and the middlewares that are logic of their own.
pub mod Ttl
pub mod Headers
pub mod Budget
pub mod Deadlines
pub mod Errors
pub mod Pool
pub mod Middlewares
pub mod Served
mod Tests
