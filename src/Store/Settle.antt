-- ===== src/Store/Settle.antt =====
-- crates/db-core/src/store/result_store.rs: what `settle` makes of a store.
use reldex.Base.{◌≡◌, refl, ◌||◌, inl, inr, Bool-cases, true, not, arith}
use reldex.Store.Result.{Phase, ResultStore, row_limit, is_active, is_empty}
use reldex.Store.Inputs.{resting_phase, rest_in, settle}
use reldex.Store.Sound.{IsSteady, IsSound}

resting_phase-rest_in :
    (s : ResultStore) (phase : Phase) → resting_phase (rest_in s phase) ≡ resting_phase s
unfolding resting_phase
resting_phase-rest_in s phase = refl

resting-IsSound :
    (s : ResultStore)
    → IsSteady s
    → is_active s.phase ≡ true
    → (phase : Phase) → resting_phase s ≡ phase
    → IsSound (rest_in s phase)
unfolding row_limit
resting-IsSound s h a phase e = record {
  steady = ground arith;
  settled = λ active f empty. rw (resting_phase-rest_in s phase, e) active;
}

pub settle-IsSound : (s : ResultStore) → IsSteady s → IsSound (settle s)
unfolding settle
settle-IsSound s h = elim (Bool-cases (not (is_active s.phase) || not (is_empty s.in_flight))) [
  | inl rests ↦ rw rests (record { steady = h; settled = λ a f empty. absurd (ground arith) })
  | inr moves ↦ rw moves (resting-IsSound s h (ground arith) (resting_phase s) refl)
]
