-- ===== src/Lib.antt =====
-- The core of the support-desk API: who a caller is and what it may do, tickets and their state
-- machine, the job queue of the scheduler, the real-time channel, sessions, idempotency keys, rate
-- limits and pages.
--
-- Parts, and the files of the repository that they model:
--   Shared: lists, tests on numbers and strings, the uuid pattern (src/tenancy/tenant-context.ts).
--   Errors: src/common/errors/error-codes.ts, app-exception.ts and prisma-errors.ts. A function
--     that can throw gives a Result; `.catch(handler)` is catch_throw.
--   Principal: src/auth/request-principal.ts and src/tenancy/tenant-context.ts.
--   Domain: the enumerations and rows of prisma/schema.prisma.
--   Authz: src/authz/permissions.ts, service-scopes.ts and permission.guard.ts.
--   Value: the values that a body of JSON can have.
--   Realtime: src/realtime/events.ts, realtime-principal.ts (Events), rooms.ts (Rooms),
--     can-join.ts (Joining), subscribe-request.ts (Subscribe), event-log.ts (EventLog) and
--     realtime.service.ts (Service).
--   Scheduler: src/scheduler/backoff.ts, readiness.ts, job-queue.service.ts (Queue) and
--     drainer.service.ts (Drainer).
--   Tickets: src/tickets/state-machine.ts, chain.ts and ticket.service.ts, over the tables, policies
--     and triggers of prisma/migrations (StateMachine for updates, Rows for the statements).
--   Conversation: src/conversation/contact-reply.ts and contact-reply.service.ts (`targetFor` in the
--     parent, `reply` in Replying), and message.service.ts with thread.ts (Posting).
--   RateLimit: src/rate-limit/fixed-window.ts (FixedWindow), rate-limit-keys.ts (Keys), client-ip.ts,
--     and rate-limit.service.ts with the guard and the middleware that ask it (Counter).
--   Sessions: src/auth/refresh-token-lifecycle.ts (Lifecycle), refresh-token.service.ts (Tokens) and
--     session-rotation.ts (Rotation).
--   Idempotency: src/idempotency/idempotency.service.ts (Records for its statements, Claim),
--     idempotency.interceptor.ts and idempotency-scope.ts (Interceptor), and the retention sweep.
--   Pagination: src/common/pagination/sort.ts, cursor.ts, keyset.ts and page.ts; Walk is a client
--     that follows the cursors.
--   Outbound: src/outbound/outbound-dispatch.service.ts (Dispatch), and src/slack/slack-target.ts
--     (Target) and slack-delivery.service.ts (Deliveries for its statements, Delivery).
--   Sla: src/sla/dwell.sweep.ts (Dwell), and sla-breach.sweep.ts with latched-timers.ts (Breach).
--   Tenancy: the loop of src/tenancy/tenancy.service.ts over the tenants.
--   Tests: concrete runs.
--
-- How state is modelled. A database table is the list of its rows, and a Prisma call or an SQL
-- statement is what it does to the list, under the row-level security of the context and with the
-- triggers, constraints and indexes of the migrations. A method that opens a transaction takes the
-- tables and gives those after it; one that throws commits nothing. transition reads and then
-- compares and sets: `between`, which is any function, is what other transactions commit in the
-- meantime. A reply has such functions between its statements, except within the post
-- of its message. SKIP LOCKED passes over the rows of `locked`, which is any test on ids. The event log
-- is a list of rooms in the order of its Map.
--
-- Choices. Ids are text, a timestamp is milliseconds since the epoch, a draw of Math.random is a
-- fraction draw / scale, a permission is text. The clock and the id of a new row are arguments, so
-- are the tokens that are drawn at random.
-- Messages of exceptions, log lines and documentation are left out. Loops go over lists; the
-- recursions of the source that do not take a bound: `targetFor` on its calls, for which two are
-- enough, `attemptClaim` the two attempts of the code, and a client of pages one page for each row
-- and one more.
--
-- Interaction. Controllers ask Authz.Guard, work in the context of Principal, change tickets through
-- Tickets.TicketService, and what a committed change announces (the third part of its result) goes
-- to Realtime.Service, which appends to the event log and delivers to rooms that Realtime.Joining
-- guards. The drainer claims jobs from the queue and settles them. The interceptor of Idempotency
-- stands around a handler and keeps its answer; the rate limit stands before all of them. A staff
-- message is dispatched with a job of the queue, whose handler is Outbound.Delivery.
--
-- Parameters. SHA-256, JSON and base64url, `toISOString` and `new Date`, the order of the database
-- and the fingerprint of a body are functions that the definitions take; what a theorem needs of
-- them is a hypothesis. What other transactions commit in the middle of an operation is any
-- function, or any history of steps where a theorem says so.
--
-- Not modelled: the framework's wiring, sockets and timers, the Redis and Slack clients, what
-- comes in from Slack, notes and the lists of a thread, the parsing of queries, service tokens
-- and the widget.
--
-- Failures outside the program. The two writes that settle a claim of the interceptor may fail; a
-- `release`, which the code does not wait for, is taken as written before the next request, if it
-- is. A call of Redis ends with a count, without a reply after it counted, or without effect.
mod Shared
pub mod Errors
pub mod Principal
pub mod Domain
pub mod Authz
pub mod Value
pub mod Realtime
pub mod Scheduler
pub mod Tickets
pub mod Conversation
pub mod RateLimit
pub mod Sessions
pub mod Idempotency
pub mod Pagination
pub mod Outbound
pub mod Sla
pub mod Tenancy
mod Tests
