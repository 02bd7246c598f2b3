-- ===== src/Storage.antt =====
-- Raw storage for objects, as the containers declare it (`std::byte m_buffer[]`, unions): a slot
-- holds an object that is alive, or nothing. `new (p) T(...)`, `std::construct_at`,
-- `std::destroy_at` and `std::destroy` start and end the life of objects in it.
mod Lifetime
mod Segments
mod Ring
unfoldable pub use Lifetime.*
pub use Segments.*
pub use Ring.*
