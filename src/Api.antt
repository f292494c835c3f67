-- ===== src/Api.antt =====
-- The HTTP interface: src/api. The web framework's routing, JSON decoding of requests, rate limits
-- and CORS are outside; the handlers, their guards and the errors they answer are here.
pub mod Errors
pub mod Payload
pub mod Handlers
pub mod Webhooks
pub mod Requests
pub mod Guards
pub mod Reports
pub mod Confirmations
pub mod Reach
