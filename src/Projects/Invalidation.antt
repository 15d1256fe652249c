-- ===== src/Projects/Invalidation.antt =====
-- backend/app/modules/projects/invalidation.py. The session does not flush before a query (db/base.py), so the queries
-- of a plan read the tables as they were stored before it, and the changes go to the objects of the session, the tables
-- `current`. A set of identifiers is the ordered list of its members, so `sorted` has nothing to do. One instant stands
-- for the calls of utc_now within a plan.
pub mod Schema
pub mod Queries
pub mod Graph
pub mod Later
pub mod Steps
pub mod Listed
pub mod Withdrawals
pub mod Stages
pub mod Moves
pub mod Clears
pub mod Revokes
pub mod Speech
pub mod Plans
pub mod Reuse
mod Examples
