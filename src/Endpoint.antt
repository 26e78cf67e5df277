-- ===== src/Endpoint.antt =====
-- endpoint.go, session.go, api.go, handler_scheduler.go and handshake_limiter.go: the sessions of an
-- endpoint, the handshakes and resumes that make connections serve them, what a connection counts,
-- sends and receives, and how its messages reach the application.
pub mod Limits
pub mod Session
pub mod Channels
pub mod Slots
pub mod Charges
pub mod Server
pub mod Polling
pub mod Admission
pub mod Handshake
pub mod Resume
pub mod Datagrams
pub mod Handlers
pub mod Limiter
pub mod Router
pub mod Budgets
