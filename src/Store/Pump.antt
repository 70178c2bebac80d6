-- ===== src/Store/Pump.antt =====
-- crates/db-core/src/store/result_store.rs: the loop of `pump` ends, and leaves nothing due.
use reldex.Base.{
  ℕ, zero, suc, ◌+◌, ◌-◌, ◌<◌, ◌≡◌, ap, inl, inr, Bool, true, false, Option, none, some, [], ◌∷◌,
  Option-cases, is_some, arith, length, length-append, if◌then◌else◌,
}
use reldex.Driver.Error.{DbResult, ok, err}
use reldex.Store.Policy.{saturating_mul}
use reldex.Store.Result.{StoreAction, ResultStore}
use reldex.Store.Fetch.{row_width, due, record_action, pump_loop, pump}
use reldex.Store.Sound.{IsSound, due-DueFetch, due-close}
use reldex.Store.Keeps.{record_action-IsSound, held_back-room}

-- How many actions can still be submitted.
abbrev measure : ResultStore → ℕ
measure s = (if s.close_due then 1 else 0) + (s.policy.fetches_in_flight - length s.in_flight)

measure-record_action :
    (s : ResultStore) (a : StoreAction) → due s ≡ some a → measure (record_action s a) < measure s
unfolding record_action
measure-record_action s (StoreAction.close_result result) e = ground (arith, due-close s result e)
measure-record_action s (StoreAction.fetch request) e =
    let d = due-DueFetch s request e in
    ground (
      arith,
      d.not_closing,
      held_back-room s d.held,
      length-append s.in_flight (
          record {
            sequence = request.ticket.sequence;
            rows = request.max_rows;
            bytes = saturating_mul request.max_rows (row_width s);
          }
          ∷ []),
    )

module _ {T : Type 0} (submit : T → StoreAction → T × DbResult (Unit {0})) where
  -- How a loop may end: sound, with nothing due if it is through, and with the action that was refused
  -- still due if it is not.
  abbrev pub EndsWell : Option (ResultStore × T × DbResult ℕ) → Type 0
  EndsWell none = ⊥
  EndsWell (some (s, t, ok submitted)) = IsSound s × (due s ≡ none)
  EndsWell (some (s, t, err e)) = IsSound s × (is_some (due s) ≡ true)

  pump_loop-EndsWell :
      (fuel : ℕ) (s : ResultStore) (t : T) (submitted : ℕ)
      → IsSound s
      → measure s < fuel
      → EndsWell (pump_loop submit fuel s t submitted)
  unfolding pump_loop
  pump_loop-EndsWell zero s t submitted h m = absurd (omega arith)
  pump_loop-EndsWell (suc fuel) s t submitted h m = elim (Option-cases (due s)) [
    | inl nothing ↦ rw (nothing, pump_loop) (h, nothing)
    | inr (a, found) ↦
        rw (found, pump_loop)
          (answered a found
            (pump_loop-EndsWell fuel (record_action s a) (submit t a).0 (submitted + 1)
              (record_action-IsSound s a h found) (omega (arith, measure-record_action s a found)))
            (submit t a).1)
  ]
    where
      answered :
          (a : StoreAction)
          → due s ≡ some a
          → EndsWell (pump_loop submit fuel (record_action s a) (submit t a).0 (submitted + 1))
          → (r : DbResult (Unit {0}))
          → EndsWell (elim r [
            | err e ↦ some (s, (submit t a).0, err e)
            | ok _ ↦ pump_loop submit fuel (record_action s a) (submit t a).0 (submitted + 1)
          ])
      answered a found rest (ok u) = rest
      answered a found rest (err e) = (h, ap is_some found)

  -- Whatever the caller answers, `pump` ends. It leaves a sound store sound, with nothing due if every
  -- action was taken, and with an action still due if one was refused.
  pub pump-EndsWell : (s : ResultStore) (t : T) → IsSound s → EndsWell (pump submit s t)
  unfolding pump
  pump-EndsWell s t h =
      pump_loop-EndsWell (s.policy.fetches_in_flight + 2) s t 0 h (enough s.close_due _ _)
    where
      enough : (b : Bool) (fetches n : ℕ) → (if b then 1 else 0) + (fetches - n) < fetches + 2
      enough true fetches n = omega arith
      enough false fetches n = omega arith
