-- ===== src/Api.antt =====
-- The Civo API as the driver uses it (the methods of `civogo.Clienter` that it calls, and the
-- fields of their data that it reads), and what it needs of the operating system for the
-- controller. Both are parameters of the model, over a world of any type.
mod Recorded
pub use Recorded.*
mod Types
pub use Types.*
