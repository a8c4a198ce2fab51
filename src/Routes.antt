-- ===== src/Routes.antt =====
-- app/routes: the HTTP handlers, from what FastAPI has parsed of a request to what they answer.
pub mod Uploads
pub mod Login
pub mod Products
pub mod Requests
pub mod Users
pub mod Health
