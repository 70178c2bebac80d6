-- ===== src/Driver/Error.antt =====
-- crates/db-driver-api/src/error.rs: the errors of the driver contract. A `Box<dyn Error>` is the text
-- that it displays.
use reldex.Base.{
  ℕ, ◌+◌, Bool, true, false, Option, none, some, [], ◌∷◌, length, ◌==◌, if◌then◌else◌,
}
use reldex.Base.Int.{ℤ}
use reldex.Text.{Text, byte_len, len_utf8}

pub data ErrorKind : Type 0 where
  configuration connection authentication network_lost timeout cancelled syntax constraint
        permission transaction resource data_conversion unsupported driver_internal other :
      ErrorKind

pub data SessionState : Type 0 where
  usable needs_validation lost : SessionState

unfoldable pub initial_for : ErrorKind → SessionState
initial_for ErrorKind.network_lost = SessionState.lost
initial_for ErrorKind.connection = SessionState.needs_validation
initial_for ErrorKind.timeout = SessionState.needs_validation
initial_for ErrorKind.cancelled = SessionState.needs_validation
initial_for ErrorKind.driver_internal = SessionState.needs_validation
initial_for _ = SessionState.usable

pub record NativeError : Type 0 where
  pub code : ℤ
  pub message : Text

pub record SqlPosition : Type 0 where
  pub char_offset : Option ℕ
  pub line : Option ℕ
  pub column : Option ℕ

-- `sql.char_indices().nth(target)`: the byte offset of a character.
abbrev pub byte_offset_of : Text → ℕ → ℕ → Option ℕ
byte_offset_of [] target at = none
byte_offset_of (c ∷ t) ℕ.zero at = some at
byte_offset_of (c ∷ t) (ℕ.suc target) at = byte_offset_of t target (at + len_utf8 c)

abbrev pub offset_or_end : Text → ℕ → Option ℕ → Option ℕ
offset_or_end sql target (some at) = some at
offset_or_end sql target none = if length sql == target then some (byte_len sql) else none

unfoldable pub byte_offset_in : SqlPosition → Text → Option ℕ
byte_offset_in p sql = elim p.char_offset [
  | none ↦ none
  | some target ↦ offset_or_end sql target (byte_offset_of sql target 0)
]

pub record DbError : Type 0 where
  pub kind : ErrorKind
  pub session_state : SessionState
  pub retryable : Bool
  pub message : Text
  pub native : Option NativeError
  pub position : Option SqlPosition
  pub source : Option Text

-- `DbError::new`.
unfoldable pub new_error : ErrorKind → Text → DbError
unfolding initial_for
new_error kind message = record {
  kind = kind;
  session_state = initial_for kind;
  retryable = false;
  message = message;
  native = none;
  position = none;
  source = none;
}

unfoldable pub internal : Text → DbError
unfolding new_error
internal message = new_error ErrorKind.driver_internal message

pub data DbResult {ℓ} (A : Type ℓ) : Type ℓ where
  ok : A → DbResult A
  err : DbError → DbResult A

abbrev pub is_ok {ℓ} : {A : Type ℓ} → DbResult A → Bool
is_ok (ok a) = true
is_ok (err e) = false
