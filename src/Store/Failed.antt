-- ===== src/Store/Failed.antt =====
-- crates/db-core/src/store/result_store.rs: what every step leaves as it is in a store
-- that has failed.
use reldex.Base.{
  ℕ, ◌-◌, ◌≡◌, refl, sym, ap, ◌∙◌, subst, inl, inr, ◌⊎◌, Bool-cases, Bool, true, false, Option,
  none, some, is_some, List, [], ◌∷◌, if◌then◌else◌,
}
use reldex.Driver.Error.{DbError, DbResult}
use reldex.Store.Ids.{result_eq}
use reldex.Store.Policy.{ResultCaps}
use reldex.Store.Segment.{LobUnavailable}
use reldex.Store.Result.{
  FetchTicket, StoreAction, SegmentReply, Fetched, InFlight, Phase, EndCause, ResultStore,
}
use reldex.Store.Fetch.{or_reason, record_action}
use reldex.Store.Inputs.{
  on_fetched, is_expected, take_front, forget, find_entry, drop_entry, out_of_sequence, set_demand,
  fetch_all, stop, resume, discard, transaction_end_submitted, phase_after_transaction,
  end_transaction, transaction_end_answered, statement_executed, session_ended,
}
use reldex.Store.Reach.{
  Step, submitted, replied, demanded, streamed, stopped, resumed, raised, discarded, end_submitted,
  end_answered, executed, session_over, Reach, here, next,
}
use reldex.Store.Over.{is_over, over-not_active, fetch_more-over}

-- What no reply changes of a store that is over.
abbrev Frame : ResultStore → ResultStore → Type 0
Frame s t =
    (t.caps ≡ s.caps) × (t.phase ≡ s.phase) × (t.close_due ≡ s.close_due) × (t.lobs ≡ s.lobs)

abbrev FrameTo : ResultStore → Option (ResultStore × Fetched) → Type 0
FrameTo s none = Unit {0}
FrameTo s (some (t, fetched)) = Frame s t

take_front-Frame :
    (s : ResultStore) (es : List InFlight) (reply : DbResult SegmentReply)
    → is_over s.phase ≡ true
    → Frame s (take_front s es reply).0
unfolding forget
take_front-Frame s [] reply h = (refl, refl, refl, refl)
take_front-Frame s (entry ∷ rest) reply h =
    rw (over-not_active s.phase h).0 (refl, refl, refl, refl)

drop_entry-Frame : (s : ResultStore) (n : ℕ) (o : Option InFlight) → Frame s (drop_entry s n o)
unfolding forget
drop_entry-Frame s n none = (refl, refl, refl, refl)
drop_entry-Frame s n (some entry) = (refl, refl, refl, refl)

out_of_sequence-Frame :
    (s : ResultStore) (n : ℕ) → is_over s.phase ≡ true → Frame s (out_of_sequence s n)
unfolding out_of_sequence
out_of_sequence-Frame s n h =
    let frame = drop_entry-Frame s n (find_entry n s.in_flight) in
    let rests =
      over-not_active (drop_entry s n (find_entry n s.in_flight)).phase (ap is_over frame.1 ∙ h) in
    rw (rests.0, rests.1) frame

on_fetched-FrameTo :
    (debug_assertions : Bool) (s : ResultStore) (ticket : FetchTicket)
    (reply : DbResult SegmentReply)
    → is_over s.phase ≡ true
    → FrameTo s (on_fetched debug_assertions s ticket reply)
unfolding on_fetched
on_fetched-FrameTo debug_assertions s ticket reply h =
    elim (Bool-cases (result_eq ticket.result s.result)) [
      | inr other ↦ rw other (refl, refl, refl, refl)
      | inl own ↦ elim (Bool-cases (is_expected s.in_flight ticket.sequence)) [
        | inl expected ↦ rw (own, expected) (take_front-Frame s s.in_flight reply h)
        | inr wrong ↦ rw (own, wrong) (released debug_assertions)
      ]
    ]
  where
    released :
        (debug : Bool)
        → FrameTo s (
            if debug
            then none
            else some (out_of_sequence s ticket.sequence, Fetched.out_of_sequence))
    released true = tt
    released false = out_of_sequence-Frame s ticket.sequence h

-- The phases of a store that has failed.
abbrev pub IsFailed : ℕ → DbError → Phase → Type 0
IsFailed rows error phase =
    (phase ≡ Phase.failed rows error) ⊎ (phase ≡ Phase.ended EndCause.discarded)

pub IsFailed-over :
    (rows : ℕ) (error : DbError) (phase : Phase) → IsFailed rows error phase → is_over phase ≡ true
IsFailed-over rows error phase (inl e) = ap is_over e
IsFailed-over rows error phase (inr e) = ap is_over e

IsFailed-after_transaction :
    (rows : ℕ) (error : DbError) (phase : Phase) (cursor_was_open : Bool)
    → IsFailed rows error phase
    → IsFailed rows error (phase_after_transaction phase cursor_was_open)
IsFailed-after_transaction rows error phase b (inl e) =
    inl (ap (λ p. phase_after_transaction p b) e)
IsFailed-after_transaction rows error phase b (inr e) =
    inr (ap (λ p. phase_after_transaction p b) e)

pub or_reason-some :
    (known : Option LobUnavailable) (reason : LobUnavailable)
    → is_some (or_reason known reason) ≡ true
or_reason-some none reason = refl
or_reason-some (some known) reason = refl

-- What holds of a store from the failure on.
abbrev pub Rests : ResultCaps → ℕ → DbError → ResultStore → Type 0
Rests caps rows error t =
    (t.caps ≡ caps) × IsFailed rows error t.phase × (t.close_due ≡ false) × (is_some t.lobs ≡ true)

module _ (caps : ResultCaps) (rows : ℕ) (error : DbError) where
  Frame-Rests : (s t : ResultStore) → Frame s t → Rests caps rows error s → Rests caps rows error t
  Frame-Rests s t (c, p, d, l) (hc, hp, hd, hl) =
      (c ∙ hc, subst (IsFailed rows error) (sym p) hp, d ∙ hd, ap is_some l ∙ hl)

  end_transaction-Rests :
      (s : ResultStore) → Rests caps rows error s → Rests caps rows error (end_transaction s)
  unfolding end_transaction
  end_transaction-Rests s (c, p, d, l) =
      (c, IsFailed-after_transaction rows error s.phase _ p, refl, or_reason-some s.lobs _)

  statement_executed-Rests :
      (s : ResultStore) (b : Bool)
      → Rests caps rows error s
      → Rests caps rows error (if b then end_transaction s else s)
  statement_executed-Rests s true h = end_transaction-Rests s h
  statement_executed-Rests s false h = h

  session_ended-Rests :
      (s : ResultStore) → Rests caps rows error s → Rests caps rows error (session_ended s)
  unfolding session_ended
  session_ended-Rests s (c, p, d, l) =
      let over = over-not_active s.phase (IsFailed-over rows error s.phase p) in
      rw (over.0, over.1) (c, p, refl, or_reason-some s.lobs _)

  Step-Rests : {s t : ResultStore} → Step s t → Rests caps rows error s → Rests caps rows error t
  unfolding record_action set_demand fetch_all stop resume discard transaction_end_submitted
      transaction_end_answered statement_executed
  Step-Rests (submitted (StoreAction.fetch request) e) h = h
  Step-Rests (submitted {s = s} (StoreAction.close_result result) e) (c, p, d, l) =
      (c, p, refl, or_reason-some s.lobs _)
  Step-Rests (replied {s = s} {s' = t} debug ticket reply fetched fits e) h =
      Frame-Rests s t
        (subst (FrameTo s) e
          (on_fetched-FrameTo debug s ticket reply (IsFailed-over rows error s.phase h.1)))
        h
  Step-Rests (demanded rows) h = h
  Step-Rests streamed h = h
  Step-Rests stopped h = h
  Step-Rests resumed h = h
  Step-Rests (raised {s = s} more) h =
      subst (Rests caps rows error)
        (sym (fetch_more-over s more (IsFailed-over rows error s.phase h.1))) h
  Step-Rests (discarded {s = s}) (c, p, d, l) = (c, inr refl, refl, or_reason-some s.lobs _)
  Step-Rests end_submitted h = h
  Step-Rests (end_answered {s = s} true) h =
      end_transaction-Rests (record s { transaction_ends_pending = s.transaction_ends_pending - 1 })
        h
  Step-Rests (end_answered false) h = h
  Step-Rests (executed {s = s} outcome) h = statement_executed-Rests s _ h
  Step-Rests (session_over {s = s}) h = session_ended-Rests s h

  pub Reach-Rests :
      {s t : ResultStore} → Reach s t → Rests caps rows error s → Rests caps rows error t
  Reach-Rests here h = h
  Reach-Rests (next r st) h = Step-Rests st (Reach-Rests r h)
