-- ===== src/Gateway.antt =====
-- src/gateway: the sockets of the clients. A connection is known by its id; an asynchronous call is a
-- step, and what a node does to Redis and to its sockets is listed.
mod Connections
mod Backplane
mod Router
mod Messages
mod Handlers
mod Removal
mod Links
mod Dispatcher
pub mod Numbers
pub mod Lookups
pub mod Subscribed
pub mod Tracking
pub mod Race
pub mod Refused
pub mod Cleanup
unfoldable pub use Connections.*
unfoldable pub use Backplane.*
unfoldable pub use Router.*
unfoldable pub use Messages.*
unfoldable pub use Handlers.*
unfoldable pub use Dispatcher.*
unfoldable pub use Removal.*
unfoldable pub use Links.*
