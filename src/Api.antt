-- ===== src/Api.antt =====
-- internal/api/server.gen.go: the types and the constants of the HTTP interface, and its routes.
pub mod Currency
pub mod Types
pub mod ParamError
pub mod Routes
