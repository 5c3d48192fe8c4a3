-- ===== src/Net.antt =====
-- The address functions of the C library, which are not part of the repository: an interface, what their documentation promises, and the functions of
-- common/src/data_transfer/socket_utils.cpp that compute something. Net/Dotted is an implementation for the examples.
mod Defs
pub mod Dotted
mod Sockets
pub mod System
pub use Defs.{Inet, InetLaws, addr_to_string-text}
pub use Sockets.{SocketAddress, Timeval, timeout, bring, htons, ntohl-lt, ntohl_injective}
unfoldable pub use Defs.{addr_to_string}
unfoldable pub use Sockets.{ntohl, create_sockaddr}
