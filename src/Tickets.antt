-- ===== src/Tickets.antt =====
-- src/tickets, with the triggers and policies of prisma/migrations that decide about its rows.
pub mod StateMachine
pub mod Rows
pub mod TicketService
pub mod Triggers
pub mod Writes
pub mod Transitions
pub mod Failures
pub mod Chains
pub mod Commits
pub mod Creations
pub mod Histories
