-- ===== src/Kube.antt =====
-- What the program's components share: JSON-like content, unstructured objects, requests to an API
-- server, and the monad in which the handlers run.
mod Content
mod Client
pub mod Samples
pub mod Lifecycle
pub mod Effects
pub mod Outcomes
unfoldable pub use Content.*
pub use Client.*
pub use Effects.*
