-- ===== src/Tests.antt =====
-- Examples: every property with hypotheses, applied to a small game.
mod Fixture
mod Stores
mod Sessions
mod Ratings
mod Money
mod Supply
mod Deals
mod Turns
mod Engine
mod Setup
mod Landing
mod Gateway
mod Accounts
