-- ===== src/Domain.antt =====
-- The enumerations and rows of prisma/schema.prisma that the components share. A timestamp is the
-- number of milliseconds since the epoch, as `Date.getTime` gives it.
use nivara_api_nestjs.Shared.{ℕ, Option, String, Bool, true, false}
use nivara_api_nestjs.Principal.Context.{ActorKind}

pub data TicketState : Type 0 where
  opened pending on_hold resolved closed : TicketState

pub data TicketPriority : Type 0 where
  low normal high urgent : TicketPriority

pub data TicketSource : Type 0 where
  portal widget slack : TicketSource

abbrev pub same_state : TicketState → TicketState → Bool
same_state opened opened = true
same_state pending pending = true
same_state on_hold on_hold = true
same_state resolved resolved = true
same_state closed closed = true
same_state _ _ = false

abbrev pub same_priority : TicketPriority → TicketPriority → Bool
same_priority low low = true
same_priority normal normal = true
same_priority high high = true
same_priority urgent urgent = true
same_priority _ _ = false

pub record Ticket : Type 0 where
  pub id : String
  pub tenant_id : String
  pub subject : String
  pub contact_id : String
  pub assignee_id : Option String
  pub state : TicketState
  pub priority : TicketPriority
  pub source : TicketSource
  pub spawned_from_ticket_id : Option String
  pub root_ticket_id : Option String
  pub slack_channel_id : Option String
  pub slack_thread_ts : Option String
  pub created_at : ℕ
  pub updated_at : ℕ
  pub first_response_at : Option ℕ
  pub sla_paused_ms : ℕ
  pub sla_pause_started_at : Option ℕ
  pub first_response_breached_at : Option ℕ
  pub resolution_breached_at : Option ℕ
  pub last_activity_at : ℕ

pub record Message : Type 0 where
  pub id : String
  pub tenant_id : String
  pub ticket_id : String
  pub body : String
  pub author_kind : ActorKind
  pub author_id : Option String
  pub created_at : ℕ
