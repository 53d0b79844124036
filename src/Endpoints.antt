-- ===== src/Endpoints.antt =====
-- src/api: the HTTP endpoints. What FastAPI reads of a request is an argument, and an exception is the
-- response with its status code.
mod Details
mod Lobby
unfoldable pub use Details.*
unfoldable pub use Lobby.*
