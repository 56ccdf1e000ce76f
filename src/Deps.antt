-- ===== src/Deps.antt =====
-- What the program takes from packages that it does not contain: concurrent maps and channels.
pub mod DashMap
pub mod Mpsc
pub mod Reader
pub mod BoundedMpsc
pub mod BufMut
pub mod JsNumber
