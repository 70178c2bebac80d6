-- ===== src/Store/Live.antt =====
-- crates/db-core/src/store/result_store.rs: a store that may fetch does, and its loop ends.
use reldex.Base.{
  ℕ, ◌+◌, ◌-◌, ◌/◌, ◌≤◌, ◌<◌, ◌≡◌, ◌⊎◌, inl, inr, Bool-cases, Bool, true, false, not, ◌&&◌, Option,
  none, some, Option-cases, arith, min, leb, ◌==◌, if◌then◌else◌,
}
use native.Mathlib.Nat.{le-div_iff_mul-le}
use reldex.Store.Policy.{limit, saturating_add, usize_max}
use reldex.Store.Result.{
  FetchRequest, StoreAction, ResultStore, row_limit, retained_bytes, is_active, is_empty,
}
use reldex.Store.Fetch.{
  row_width, rows_per_round_trip, target, byte_room_of, byte_room, row_room, non_zero_or_first,
  next_request_rows, held_back, due,
}
use reldex.Store.Inputs.{resting_phase, exceeds}
use reldex.Store.Sound.{IsSteady, IsSound, row_limit_bounds}

row_width_pos : (s : ResultStore) → 1 ≤ s.declared_width → 1 ≤ row_width s
unfolding row_width
row_width_pos s h = ground arith

rows_per_round_trip_pos : (s : ResultStore) → 1 ≤ s.policy.fetch_rows → 1 ≤ rows_per_round_trip s
unfolding rows_per_round_trip
rows_per_round_trip_pos s h = ground arith

-- A store that need not rest is within its row cap, and has room for one more row in its byte cap.
resting-room :
    (s : ResultStore)
    → is_active (resting_phase s) ≡ true
    → (s.retained_rows ≤ row_limit s)
      × (exceeds (saturating_add (retained_bytes s) (row_width s)) (limit s.caps.max_bytes.value)
          ≡ false)
unfolding resting_phase
resting-room s h = (ground arith, ground arith)

one_fits : (w x : ℕ) → 1 ≤ w → w ≤ x → 1 ≤ x / w
one_fits w x p h = (le-div_iff_mul-le p).1 (omega arith)

byte_room_of_pos :
    (s : ResultStore) (cap : Option ℕ)
    → 1 ≤ row_width s
    → s.in_flight_bytes ≡ 0
    → retained_bytes s + row_width s ≤ usize_max
    → exceeds (saturating_add (retained_bytes s) (row_width s)) cap ≡ false
    → 1 ≤ byte_room_of s cap
unfolding saturating_add
byte_room_of_pos s none w b fits h = omega arith
byte_room_of_pos s (some cap) w b fits h =
    one_fits (row_width s) (cap - saturating_add (retained_bytes s) s.in_flight_bytes) w
      (ground arith)

min_pos : (a b c : ℕ) → 1 ≤ a → 1 ≤ b → 1 ≤ c → (min (min a b) c == 0) ≡ false
min_pos a b c h k l = ground arith

-- What a store that waits for nothing has, once it has submitted its first fetch.
record Room (s : ResultStore) : Type 0 where
  rows : 1 ≤ row_room s
  bytes : 1 ≤ byte_room s

no_bytes :
    (s : ResultStore)
    → IsSteady s
    → is_empty s.in_flight ≡ true
    → (s.in_flight_rows ≡ 0) × (s.in_flight_bytes ≡ 0)
no_bytes s h e = ground (arith, h.counted, h.weighed)

idle-Room :
    (s : ResultStore)
    → IsSound s
    → is_active s.phase ≡ true
    → s.first_submitted ≡ true
    → is_empty s.in_flight ≡ true
    → retained_bytes s + row_width s ≤ usize_max
    → Room s
unfolding row_room byte_room
idle-Room s h a f e fits =
    let (within, light) = resting-room s (h.settled a f e) in
    let (no_rows, no_weight) = no_bytes s h.steady e in
    record {
      rows = omega (arith, row_limit_bounds s);
      bytes = byte_room_of_pos s _ (row_width_pos s h.width) no_weight fits light;
    }

first_request :
    (s : ResultStore) → s.first_submitted ≡ false → (n : ℕ) × (next_request_rows s ≡ some n)
unfolding next_request_rows
first_request s f = elim (Option-cases (next_request_rows s)) [
  | inl nothing ↦ absurd (ground (arith, nothing))
  | inr found ↦ found
]

not_yet : (pending bound : ℕ) → pending < bound → leb bound pending ≡ false
not_yet pending bound h = ground arith

some_rows :
    (submitted reached : Bool) (per_trip rows bytes : ℕ)
    → reached ≡ false
    → 1 ≤ per_trip
    → 1 ≤ rows
    → 1 ≤ bytes
    → (n : ℕ) × ((if submitted && reached
          then none
          else non_zero_or_first (min (min per_trip rows) bytes) (not submitted))
        ≡ some n)
some_rows true reached per_trip rows bytes e h k l =
    (min (min per_trip rows) bytes, rw e (rw (min_pos per_trip rows bytes h k l)))
some_rows false reached per_trip rows bytes e h k l =
    (min (min per_trip rows) bytes, rw (min_pos per_trip rows bytes h k l))

later_request :
    (s : ResultStore)
    → IsSteady s
    → Room s
    → s.retained_rows + s.in_flight_rows < target s
    → (n : ℕ) × (next_request_rows s ≡ some n)
unfolding next_request_rows
later_request s h room below =
    some_rows s.first_submitted (leb (target s) (s.retained_rows + s.in_flight_rows))
      (rows_per_round_trip s) (row_room s) (byte_room s)
      (not_yet (s.retained_rows + s.in_flight_rows) (target s) below)
      (rows_per_round_trip_pos s h.policy.fetch_rows) room.rows room.bytes

idle-held_back :
    (s : ResultStore)
    → IsSteady s
    → is_active s.phase ≡ true
    → is_empty s.in_flight ≡ true
    → s.stopped ≡ false
    → s.transaction_ends_pending ≡ 0
    → s.exhausted ≡ false
    → held_back s ≡ false
unfolding held_back
idle-held_back s h a e st p x = ground (arith, h.policy.fetches)

settled-exhausted : (s : ResultStore) → is_active (resting_phase s) ≡ true → s.exhausted ≡ false
unfolding resting_phase
settled-exhausted s h = ground arith

fetch_due :
    (s : ResultStore) (n : ℕ)
    → s.close_due ≡ false
    → held_back s ≡ false
    → next_request_rows s ≡ some n
    → (request : FetchRequest) × (due s ≡ some (StoreAction.fetch request))
unfolding due
fetch_due s n c b e = (
  record { ticket = record { result = s.result; sequence = s.next_sequence }; max_rows = n },
  rw (c, b, e),
)

-- A result does not get stuck: an active store with nothing in flight, not told to stop and with no end
-- of its transaction announced, has a fetch due if it has not submitted any yet, or if fewer rows are
-- retained than its target, which is all there are if everything is wanted, and else the demand and one
-- round trip. What it retains and one more row is to be less than memory can hold.
pub due_when_idle :
    (s : ResultStore)
    → IsSound s
    → is_active s.phase ≡ true
    → is_empty s.in_flight ≡ true
    → s.stopped ≡ false
    → s.transaction_ends_pending ≡ 0
    → retained_bytes s + row_width s ≤ usize_max
    → (s.first_submitted ≡ false) ⊎ (s.retained_rows < target s)
    → (request : FetchRequest) × (due s ≡ some (StoreAction.fetch request))
due_when_idle s h a e st p fits below = elim (Bool-cases s.first_submitted) [
  | inr f ↦
      let (n, found) = first_request s f in
      fetch_due s n (h.open_cursor a).1 (idle-held_back s h.steady a e st p (h.untouched f).3) found
  | inl f ↦
      let (n, found) = later_request s h.steady (idle-Room s h a f e fits) (reaches f below) in
      fetch_due s n (h.open_cursor a).1
        (idle-held_back s h.steady a e st p (settled-exhausted s (h.settled a f e))) found
]
  where
    reaches :
        s.first_submitted ≡ true
        → (s.first_submitted ≡ false) ⊎ (s.retained_rows < target s)
        → s.retained_rows + s.in_flight_rows < target s
    reaches f (inl g) = absurd (ground (arith, f, g))
    reaches f (inr below) = omega (arith, (no_bytes s h.steady e).0)
