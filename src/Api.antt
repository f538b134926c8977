-- ===== src/Api.antt =====
-- api: the request handlers of the serving API.
pub mod Vector
pub mod Features
pub mod Admin
pub mod Health
pub mod App
