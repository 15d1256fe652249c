-- ===== src/Budgets.antt =====
-- The budget of cloud calls: quotes, authorizations and metered usage.
pub mod Money
pub mod Schema
pub mod Totals
pub mod Guard
pub mod Metering
pub mod Spending
mod Examples
