-- ===== src/Core.antt =====
-- src/core: the parts of the API's core that carry logic of their own.
pub mod RateLimit
pub mod Exceptions
pub mod Security
