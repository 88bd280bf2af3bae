-- ===== src/Store.antt =====
-- The database behind app/infra/repo and the unit of work of app/infra/interfaces/uow_provider.py.
--
-- A table is the list of its rows, and a row is the entity that `to_domain` builds from it. A
-- session works on the tables of its transaction, `db`, beside those that are committed. Any
-- statement and any commit may lose the connection: `faults` says which of the next ones do (none
-- do when it has run out). A commit that fails has written nothing.
pub mod Tables
pub mod Session
pub mod Repositories
pub mod Laws
pub mod Transactions
pub mod Outcomes
pub mod Answers
pub mod Preserves
pub mod Integrity
pub mod RoundTrip
pub mod Lookups
mod Examples
