-- ===== src/Httpbp.antt =====
-- httpbp: the signed headers of headers.go, the errors of errors.go, the middlewares of middlewares.go and
-- the limit on a client's requests of client_middlewares.go.
pub mod Headers
pub mod Trust
pub mod Messages
pub mod Errors
pub mod Middlewares
pub mod Limits
pub mod Retries
mod Calls
mod Tests
