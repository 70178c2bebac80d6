-- ===== src/Events/Event.antt =====
-- crates/db-core/src/events.rs: the events of a session. The replies that neither the queue nor a store
-- looks into are one constructor, and so are the fields of the others that they do not read left out.
use reldex.Base.{ℕ, Bool, true, false, Option, List}
use reldex.Text.{Text}
use reldex.Driver.Error.{DbError, DbResult}
use reldex.Store.Ids.{SessionId, ResultId, LobHandle}
use reldex.Store.Result.{FetchTicket, SegmentReply}
use reldex.Store.Inputs.{ExecuteOutcome}

pub data CompletedOperation : Type 0 where
  commit rollback savepoint rollback_to_savepoint ping : CompletedOperation
  close_result : ResultId → CompletedOperation
  close_lob : LobHandle → CompletedOperation

abbrev pub ends_transaction : CompletedOperation → Bool
ends_transaction CompletedOperation.commit = true
ends_transaction CompletedOperation.rollback = true
ends_transaction CompletedOperation.rollback_to_savepoint = true
ends_transaction _ = false

pub data SessionEvent : Type 0 where
  fetched_segment : SessionId → (fetch : FetchTicket) → DbResult SegmentReply → SessionEvent
  executed : SessionId → DbResult ExecuteOutcome → SessionEvent
  completed : SessionId → CompletedOperation → DbResult (Unit {0}) → SessionEvent
  terminal : SessionId → SessionEvent
  other_reply : SessionId → SessionEvent
  executing : SessionId → SessionEvent
  server_output :
      SessionId
      → (lines : List Text) (dropped : ℕ) (failure : Option DbError) (invalid_utf8_lines : ℕ)
      → SessionEvent
  transaction_state_changed : SessionId → (possibly_active : Bool) → SessionEvent

abbrev pub event_session : SessionEvent → SessionId
event_session (SessionEvent.fetched_segment session fetch segment) = session
event_session (SessionEvent.executed session outcome) = session
event_session (SessionEvent.completed session operation result) = session
event_session (SessionEvent.terminal session) = session
event_session (SessionEvent.other_reply session) = session
event_session (SessionEvent.executing session) = session
event_session (SessionEvent.server_output session lines dropped failure invalid) = session
event_session (SessionEvent.transaction_state_changed session possibly_active) = session

unfoldable pub is_unsolicited : SessionEvent → Bool
is_unsolicited (SessionEvent.server_output session lines dropped failure invalid) = true
is_unsolicited (SessionEvent.transaction_state_changed session possibly_active) = true
is_unsolicited _ = false

-- `SessionEvent::is_reply`.
abbrev pub is_reply : SessionEvent → Bool
is_reply (SessionEvent.fetched_segment session fetch segment) = true
is_reply (SessionEvent.executed session outcome) = true
is_reply (SessionEvent.completed session operation result) = true
is_reply (SessionEvent.other_reply session) = true
is_reply _ = false
