-- ===== src/OAuth.antt =====
-- src/oauth-resource-server.ts: what makes a bearer token acceptable.
pub mod Claims
pub mod Verified
pub mod Checks
pub mod Trusted
pub mod Jwks
pub mod TokenCache
pub mod AccessToken
pub mod Signed
pub mod Circuit
pub mod Opened
pub mod KeptAway
pub mod Retries
pub mod Fresh
pub mod Granted
mod Tests
