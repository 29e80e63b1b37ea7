-- ===== src/Memory.antt =====
-- Package memory (store/memory), one module for each group of methods.
pub mod Store
pub mod Users
pub mod Erase
pub mod Upsert
pub mod Passkeys
pub mod Identities
pub mod Tokens
pub mod Otps
pub mod Audits
pub mod Sessions
pub mod TwoFactor
pub mod Groups
pub mod ApiKeys
pub mod Orgs
pub mod Invites
pub mod Listings
pub mod Oauth
