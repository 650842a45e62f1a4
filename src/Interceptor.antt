-- ===== src/Interceptor.antt =====
-- `Interceptor` and `InterceptorManager` of include/libuv_net/message.hpp, and the two interceptors.
pub mod Defs
pub mod Any
pub mod Json
pub mod Protobuf
pub mod Calm
pub mod Laws
unfoldable pub use Defs.{add_interceptor, get_interceptor, serialize, deserialize}
pub use Defs.{Interceptor, Manager}
