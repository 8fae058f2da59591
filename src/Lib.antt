-- ===== src/Lib.antt =====
-- Verification of the Brenox engine, a server for team chat and calls written in Go.
--
-- The server is a set of services over one PostgreSQL database (internal/db, generated by sqlc) and a
-- hub of WebSockets. A service method runs queries one after the other, outside any transaction, so a
-- method may fail between two writes and what it wrote stays. The model keeps that: a method is a
-- function on a state of tables that returns a value or an error together with the state that it
-- leaves (Base/Monad), and every query may fail when the state's `faults` say so (Db/State).
--
-- The files:
--   * Base: Boolean tests on numbers, tables as lists of rows (Base/Rows), Go's maps with integer keys
--     (Base/Map), methods (Base/Monad). Strings: the functions of Go on strings.
--   * Db: the tables as records (internal/db/models.go), the errors of all packages, the signals that
--     services send, and the logics for methods: `Triple`, what a method does to a group of tables
--     whichever queries fail (with the rules for reads in Db/Reads), and `Frame`, that it leaves a
--     group alone; Db/Calm has a third, what a method does to the tables of the calls while no query
--     fails.
--   * Queries: one action for each query of internal/db/*.sql.go that the services use.
--   * Calls: internal/calls/service.go. Calls/Service has InitiateCall, JoinCall and LeaveCall,
--     Calls/Recordings has StartRecording, StopRecording and ValidateSignal, Calls/Metering the charge
--     for a video call. Calls/Interfaces is the service's view of billing, channels and notifications;
--     Calls/Invariant and Calls/Safety carry the proofs for every path, and Calls/History the histories of requests.
--     Calls/Invitations, Opening, Arrival and Departure say what each method does while no query fails,
--     Calls/Blocked what a request that failed half way may leave behind, Calls/Charge what is charged.
--   * Chat: internal/chat. Chat/Service has SendMessage and ListMessages and asks for interfaces to
--     billing and to the notifications, which Chat/Engine fills; Chat/Rights, Sending and Reading carry
--     the proofs.
--   * Channels: internal/channels. Channels/Access is the check of a call's channel, Channels/Service
--     has creating, joining, leaving and listing channels; Channels/Creation and Effects say what each
--     request does, Channels/History what a history of requests keeps.
--   * Billing: internal/billing/service.go. Billing/Quotas and Usage are the quotas and the metering,
--     which the other services call (Billing/Frames and Steady fill the interface of Calls). Plans is
--     the administration of the plans, with Highlights, PlanRules, PlanCreation, PlanUpdates,
--     PlanDeletion and PlanRequests; Stripe is the handling of Stripe's events, with StripeEffects.
--   * Presence: internal/presence. Presence/Store is the store in memory and Presence/Service the
--     service over it; Presence/Log is the specification, a list of the connections that are open, to
--     which Spec, Entries, Opening, Closing and Tracking relate the store.
--   * Notifications: internal/notifications. Mentions parses the names in a message, Service has the
--     operations; Rows, Replies, Effects, Invites, CallInvites and Reading carry the proofs. It is the
--     notifier that the services of the calls, of the messages and of the members call (Billing/Frames,
--     Chat/Engine, Workspaces/Invitations).
--   * Authz: internal/authz. Workspaces: internal/workspaces, members in Workspaces/Members, with the
--     notifier's interface in Workspaces/Invitations, the service in Workspaces/Service. Channels and
--     workspaces are guarded by the checks of Authz.
--   * Origins: internal/origins/checker.go. Lists reads and normalises origins, Sources loads those of
--     an app, Checker is the cache and the decision; Isolation and Clean carry the proofs.
--   * Realtime: internal/realtime/hub.go, call_signal.go, redis_broker.go (the counts of subscriptions)
--     and sequence.go (the sequencer in memory). RateLimit: internal/ratelimit/limiter.go.
--   * Tests: runs at concrete inputs.
--
-- Parameters: the packages strings and regexp (Strings), net/url and net/netip (OriginLibrary in
-- Origins/Lists), the Stripe library (StripeLibrary in Billing/Stripe) and the matches of a pattern and
-- PostgreSQL's LOWER (MentionLibrary in Notifications/Mentions) are not in the repository, so the
-- definitions take their functions as arguments; the theorems assume nothing of them but what a
-- theorem names.
--
-- Ids, counts and times are natural numbers, the ids of a table are given in turn, times are in
-- microseconds, and the clock stands still during one method. There is no fuel: every method is a
-- composition of finitely many queries, and its loops are over lists that a query or the request gave.
-- Requests are taken one at a time, so races between two requests are not modelled.
--
-- Not modelled: the HTTP handlers and the middleware, which decode requests and call these methods; the
-- sockets' read and write pumps, Redis and the presence store that runs in it, object storage, tokens
-- and passwords, which are I/O or calls of other libraries. Of billing, the sessions that are opened
-- with Stripe, the overviews and the change of a subscription by an administrator; of origins, the hints
-- that a request carries; and the administration of the platform and the services of apps and
-- developers are not modelled.
pub mod Base
pub mod Db
pub mod Queries
pub mod Calls
pub mod Strings
pub mod Authz
pub mod Workspaces
pub mod Realtime
pub mod Channels
pub mod Chat
pub mod Presence
pub mod Notifications
pub mod Origins
pub mod Billing
pub mod Tests
pub mod RateLimit
