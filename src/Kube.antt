-- ===== src/Kube.antt =====
-- The parts of the Kubernetes API objects that the code sets or reads, and the cluster behind the
-- clients: an interface, since client-go and the API server are not this program's code.
mod Objects
mod Clients
pub mod Trace
pub mod Closed
pub use Objects.*
unfoldable pub use Clients.*
