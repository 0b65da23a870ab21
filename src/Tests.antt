-- ===== src/Tests.antt =====
-- Concrete runs: the surroundings of the server given by functions, and the theorems at them.
mod Codec
mod Given
mod Counts
mod Tokens
mod Grace
mod Upgrades
mod Sessions
mod Passwords
mod Accounts
mod Guesses
mod Logins
mod Rotation
mod Revocations
mod Server
mod Factors
mod Challenges
mod Removals
mod Regenerations
mod Enablements
mod Enrolments
