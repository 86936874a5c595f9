-- ===== src/Common.antt =====
-- App/common: the services that the modules share.
pub mod Cache
pub mod Passwords
pub mod Jwt
pub mod Cookies
pub mod Database
pub mod Rabbitmq
