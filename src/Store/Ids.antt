-- ===== src/Store/Ids.antt =====
-- crates/db-core/src/ids.rs: the identifiers of sessions, results and large objects. Where they are
-- allocated a counter goes up; here the numbers are given.
use reldex.Base.{ℕ, Bool, ◌&&◌, ◌==◌}

pub record SessionId : Type 0 where
  pub number : ℕ

-- `SessionId::UNOWNED`.
abbrev pub unowned : SessionId
unowned = record { number = 0 }

abbrev pub session_eq : SessionId → SessionId → Bool
session_eq a b = a.number == b.number

-- `ResultId`; the id within its session is the driver's `ResultSetId`.
pub record ResultId : Type 0 where
  pub session : SessionId
  pub result : ℕ

abbrev pub result_eq : ResultId → ResultId → Bool
result_eq a b = session_eq a.session b.session && a.result == b.result

pub record LobHandle : Type 0 where
  pub session : SessionId
  pub serial : ℕ

-- `LobHandle::from_serial`.
abbrev pub from_serial : SessionId → ℕ → LobHandle
from_serial session serial = record { session = session; serial = serial }
