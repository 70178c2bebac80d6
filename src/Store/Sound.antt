-- ===== src/Store/Sound.antt =====
-- crates/db-core/src/store/result_store.rs: the invariant of a result store, and the facts about its
-- parts that the proofs of preservation share.
use reldex.Base.{
  ℕ, suc, ◌+◌, ◌≤◌, ◌≡◌, ◌≢◌, refl, sym, ap, ◌∙◌, inl, inr, Bool-cases, true, false, Option, none,
  some, List, [], ◌∷◌, ◌++◌, arith, length, is_some,
}
use reldex.Store.Ids.{ResultId}
use reldex.Store.Policy.{Cap, limit, ResultPolicy, saturating_add, grid_row_ceiling}
use reldex.Store.Result.{
  FetchRequest, StoreAction, InFlight, ResultStore, row_limit_of, row_limit, is_active, is_empty,
}
use reldex.Store.Fetch.{row_room, next_request_rows, held_back, fetch_of, due}
use reldex.Store.Inputs.{find_entry, without_entry, resting_phase}

abbrev pub sum_rows : List InFlight → ℕ
sum_rows [] = 0
sum_rows (e ∷ es) = e.rows + sum_rows es

abbrev pub sum_bytes : List InFlight → ℕ
sum_bytes [] = 0
sum_bytes (e ∷ es) = e.bytes + sum_bytes es

-- A cap is not zero, and neither is what else a policy counts.
abbrev pub IsCap : Cap → Type 0
IsCap (Cap.at value) = 1 ≤ value
IsCap Cap.unlimited = Unit {0}

pub record IsPolicy (p : ResultPolicy) : Type 0 where
  pub rows : IsCap p.caps.max_rows.value
  pub fetch_rows : 1 ≤ p.fetch_rows
  pub fetches : 1 ≤ p.fetches_in_flight

-- The counts of a store are those of what is in flight, no more is requested than the caps and the
-- policy allow, and the flags fit the phase.
pub record IsSteady (s : ResultStore) : Type 0 where
  pub policy : IsPolicy s.policy
  pub cap : IsCap s.caps.max_rows.value
  pub width : 1 ≤ s.declared_width
  pub counted : s.in_flight_rows ≡ sum_rows s.in_flight
  pub weighed : s.in_flight_bytes ≤ sum_bytes s.in_flight
  pub capped : s.retained_rows + s.in_flight_rows ≤ row_limit s + 1
  pub outstanding : length s.in_flight ≤ s.policy.fetches_in_flight
  pub untouched :
      s.first_submitted ≡ false
      → (s.retained_rows ≡ 0)
        × (s.in_flight_rows ≡ 0)
        × (is_empty s.in_flight ≡ true)
        × (s.exhausted ≡ false)
  pub open_cursor : is_active s.phase ≡ true → (s.cursor_closed ≡ false) × (s.close_due ≡ false)
  pub released : s.cursor_closed ≡ true → is_some s.lobs ≡ true

-- Between two operations an active store with nothing in flight has no reason to rest.
pub record IsSound (s : ResultStore) : Type 0 where
  pub steady : IsSteady s
  pub open steady use *
  pub settled :
      is_active s.phase ≡ true
      → s.first_submitted ≡ true
      → is_empty s.in_flight ≡ true
      → is_active (resting_phase s) ≡ true

pub sum_rows-append :
    (es : List InFlight) (e : InFlight)
    → (sum_rows (es ++ (e ∷ [])) ≡ sum_rows es + e.rows)
      × (sum_bytes (es ++ (e ∷ [])) ≡ sum_bytes es + e.bytes)
sum_rows-append [] e = omega arith
sum_rows-append (x ∷ es) e = omega (arith, sum_rows-append es e)

pub sum_rows-without_entry :
    (n : ℕ) (es : List InFlight) (e : InFlight)
    → find_entry n es ≡ some e
    → (sum_rows es ≡ e.rows + sum_rows (without_entry n es))
      × (sum_bytes es ≡ e.bytes + sum_bytes (without_entry n es))
      × (length es ≡ suc (length (without_entry n es)))
sum_rows-without_entry n [] e h = cc
sum_rows-without_entry n (x ∷ es) e h = ground (arith, sum_rows-without_entry n es e)

pub row_limit_of_bounds : (o : Option ℕ) → row_limit_of o ≤ grid_row_ceiling
row_limit_of_bounds none = omega arith
row_limit_of_bounds (some cap) = omega arith

pub row_limit_bounds : (s : ResultStore) → row_limit s ≤ grid_row_ceiling
unfolding row_limit
row_limit_bounds s = row_limit_of_bounds (limit s.caps.max_rows.value)

cap-row_limit : (c : Cap) → IsCap c → 1 ≤ row_limit_of (limit c)
unfolding limit
cap-row_limit (Cap.at value) h = omega arith
cap-row_limit Cap.unlimited h = omega arith

pub row_limit_pos : (s : ResultStore) → IsCap s.caps.max_rows.value → 1 ≤ row_limit s
unfolding row_limit
row_limit_pos s h = cap-row_limit s.caps.max_rows.value h

-- A request asks for at least one row, and for no more than the cap has room for with one row past it.
pub next_request_rows_bounds :
    (s : ResultStore)
    → IsSound s
    → (n : ℕ) → next_request_rows s ≡ some n
    → (1 ≤ n) × (s.retained_rows + s.in_flight_rows + n ≤ row_limit s + 1)
unfolding next_request_rows row_room saturating_add
next_request_rows_bounds s h n e =
    ground (arith, row_limit_bounds s, row_limit_pos s h.cap, h.untouched, h.capped, row_room s)

-- What a due fetch says of the store.
pub record DueFetch (s : ResultStore) (request : FetchRequest) : Type 0 where
  pub not_closing : s.close_due ≡ false
  pub held : held_back s ≡ false
  pub sized : next_request_rows s ≡ some request.max_rows
  pub numbered : request.ticket.sequence ≡ s.next_sequence
  pub own : request.ticket.result ≡ s.result

fetch_of-DueFetch :
    (s : ResultStore) (request : FetchRequest)
    → s.close_due ≡ false
    → held_back s ≡ false
    → (o : Option ℕ) → next_request_rows s ≡ o
    → fetch_of s o ≡ some (StoreAction.fetch request)
    → DueFetch s request
fetch_of-DueFetch s request c b none n e = cc
fetch_of-DueFetch s request c b (some rows) n e = record {
  not_closing = c;
  held = b;
  sized = n ∙ ap (λ a. some (requested_rows a)) e;
  numbered = sym (ap requested_sequence e);
  own = sym (ap (requested_result s.result) e);
}
  where
    requested_rows : Option StoreAction → ℕ
    requested_rows (some (StoreAction.fetch r)) = r.max_rows
    requested_rows _ = 0

    requested_sequence : Option StoreAction → ℕ
    requested_sequence (some (StoreAction.fetch r)) = r.ticket.sequence
    requested_sequence _ = 0

    requested_result : ResultId → Option StoreAction → ResultId
    requested_result d (some (StoreAction.fetch r)) = r.ticket.result
    requested_result d _ = d

pub due-DueFetch :
    (s : ResultStore) (request : FetchRequest)
    → due s ≡ some (StoreAction.fetch request)
    → DueFetch s request
unfolding due
due-DueFetch s request e = elim (Bool-cases s.close_due) [
  | inl c ↦ absurd (cc (rw c at e))
  | inr c ↦ elim (Bool-cases (held_back s)) [
    | inl b ↦ absurd (cc (rw (c, b) at e))
    | inr b ↦ fetch_of-DueFetch s request c b (next_request_rows s) refl (rw (c, b) at e)
  ]
]

fetch_of-ne-close :
    (s : ResultStore) (result : ResultId) (o : Option ℕ)
    → fetch_of s o ≢ some (StoreAction.close_result result)
fetch_of-ne-close s result none e = cc
fetch_of-ne-close s result (some rows) e = cc

pub due-close :
    (s : ResultStore) (result : ResultId)
    → due s ≡ some (StoreAction.close_result result)
    → s.close_due ≡ true
unfolding due
due-close s result e = elim (Bool-cases s.close_due) [
  | inl c ↦ c
  | inr c ↦ elim (Bool-cases (held_back s)) [
    | inl b ↦ absurd (cc (rw (c, b) at e))
    | inr b ↦ absurd (fetch_of-ne-close s result (next_request_rows s) (rw (c, b) at e))
  ]
]
