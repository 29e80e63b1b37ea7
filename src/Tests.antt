-- ===== src/Tests.antt =====
-- The theorems at concrete inputs that meet their hypotheses, and runs of the code.
mod Users
mod Credentials
mod Organizations
mod Limits
mod Filters
mod Owners
mod Provider
mod Factors
mod Requests
mod Joining
mod Directory
mod Admin
mod Login
