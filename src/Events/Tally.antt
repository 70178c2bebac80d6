-- ===== src/Events/Tally.antt =====
-- crates/db-core/src/events.rs: counting the events of a queue that no request bounds.
use reldex.Base.{
  ℕ, zero, suc, ◌+◌, ◌-◌, ◌≤◌, ◌≡◌, refl, sym, ap, subst, inl, inr, Bool-cases, Bool, true, false,
  Option, none, some, some-inj, List, [], ◌∷◌, ◌++◌, arith, length, ◌==◌, if◌then◌else◌,
}
use reldex.Store.Ids.{SessionId}
use reldex.Events.Event.{SessionEvent}
use reldex.Events.Queue.{Queued, with_state, put_event, cons_queued, fold_at}

abbrev pub one_if : Bool → ℕ
one_if b = if b then 1 else 0

-- A change of the state of a session's transaction, an output of the session, and one without a failure.
abbrev pub is_change : ℕ → SessionEvent → Bool
is_change n (SessionEvent.transaction_state_changed session active) = n == session.number
is_change n _ = false

abbrev pub is_output : ℕ → SessionEvent → Bool
is_output n (SessionEvent.server_output session lines lost failure invalid) = n == session.number
is_output n _ = false

abbrev pub is_plain : ℕ → SessionEvent → Bool
is_plain n (SessionEvent.server_output session lines lost none invalid) = n == session.number
is_plain n _ = false

abbrev pub tally : (SessionEvent → Bool) → List Queued → ℕ
tally test [] = 0
tally test (q ∷ qs) = one_if (test q.event) + tally test qs

-- How many changes and how many outputs without a failure are queued for a session.
abbrev pub changes : SessionId → List Queued → ℕ
changes session = tally (is_change session.number)

abbrev pub plain_outputs : SessionId → List Queued → ℕ
plain_outputs session = tally (is_plain session.number)

-- The sequence number of the first queued change of a session.
abbrev pub find_change : ℕ → ℕ → List Queued → Option ℕ
find_change n start [] = none
find_change n start (q ∷ qs) =
    if is_change n q.event then some start else find_change n (start + 1) qs

pub tally-append :
    (test : SessionEvent → Bool) (qs : List Queued) (q : Queued)
    → tally test (qs ++ (q ∷ [])) ≡ tally test qs + one_if (test q.event)
tally-append test [] q = omega arith
tally-append test (x ∷ qs) q = omega (arith, tally-append test qs q)

pub no_change :
    (n start : ℕ) (qs : List Queued) → tally (is_change n) qs ≡ 0 → find_change n start qs ≡ none
no_change n start [] h = refl
no_change n start (q ∷ qs) h = ground (arith, no_change n (start + 1) qs)

pub find_change-append :
    (n start : ℕ) (qs : List Queued) (q : Queued)
    → tally (is_change n) qs ≡ 0
    → find_change n start (qs ++ (q ∷ []))
      ≡ (if is_change n q.event then some (start + length qs) else none)
find_change-append n start [] q h =
    ap (λ k. if is_change n q.event then some k else none) (omega arith)
find_change-append n start (x ∷ qs) q h = ground (arith, find_change-append n (start + 1) qs q)

pub find_change-other :
    (n start : ℕ) (qs : List Queued) (q : Queued)
    → is_change n q.event ≡ false
    → find_change n start (qs ++ (q ∷ [])) ≡ find_change n start qs
find_change-other n start [] q h = rw h refl
find_change-other n start (x ∷ qs) q h =
    ap (λ o. if is_change n x.event then some start else o) (find_change-other n (start + 1) qs q h)

plain-output : (n : ℕ) (e : SessionEvent) → one_if (is_plain n e) ≤ one_if (is_output n e)
plain-output n (SessionEvent.server_output session lines lost none invalid) = omega arith
plain-output n (SessionEvent.server_output session lines lost (some f) invalid) = ground arith
plain-output n _ = omega arith

pub plain_le_outputs : (n : ℕ) (qs : List Queued) → tally (is_plain n) qs ≤ tally (is_output n) qs
plain_le_outputs n [] = omega arith
plain_le_outputs n (q ∷ qs) = omega (arith, plain-output n q.event, plain_le_outputs n qs)

pub found_none :
    (n start : ℕ) (qs : List Queued) → find_change n start qs ≡ none → tally (is_change n) qs ≡ 0
found_none n start [] h = refl
found_none n start (q ∷ qs) h = elim (Bool-cases (is_change n q.event)) [
  | inl is ↦ absurd (one_found (rw is at h))
  | inr other ↦ rw other (omega (arith, found_none n (start + 1) qs (rw other at h)))
]
  where
    one_found : (some start ≡ none) → ⊥
    one_found e = ground (arith, e)

-- Two lists of the same length whose events count alike.
pub record Alike (n : ℕ) (qs rs : List Queued) : Type 0 where
  pub changed : tally (is_change n) rs ≡ tally (is_change n) qs
  pub output : tally (is_output n) rs ≡ tally (is_output n) qs
  pub plain : tally (is_plain n) rs ≡ tally (is_plain n) qs
  pub found : (start : ℕ) → find_change n start rs ≡ find_change n start qs
  pub size : length rs ≡ length qs

with_state-same :
    (n : ℕ) (active : Bool) (e new : SessionEvent)
    → with_state active e ≡ some new
    → (is_change n new ≡ is_change n e)
      × (is_output n new ≡ is_output n e)
      × (is_plain n new ≡ is_plain n e)
with_state-same n active (SessionEvent.transaction_state_changed session queued) new e =
    let f : new ≡ SessionEvent.transaction_state_changed session active = sym (some-inj _ _ e) in
    (ap (is_change n) f, ap (is_output n) f, ap (is_plain n) f)
with_state-same n active _ new e = cc

pub fold_at-Alike :
    (n i : ℕ) (active : Bool) (qs folded : List Queued)
    → fold_at i active qs ≡ some folded
    → Alike n qs folded
unfolding fold_at
fold_at-Alike n i active [] folded e = absurd (ground (arith, e))
fold_at-Alike n zero active (q ∷ qs) folded e = replaced (with_state active q.event) refl e
  where
    replaced :
        (o : Option SessionEvent)
        → with_state active q.event ≡ o
        → put_event q qs o ≡ some folded
        → Alike n (q ∷ qs) folded
    replaced none f e = absurd (ground (arith, e))
    replaced (some new) f e =
        let (c, o, p) = with_state-same n active q.event new f in
        subst (Alike n (q ∷ qs)) (some-inj _ _ e) (record {
          changed = ap (λ b. one_if b + tally (is_change n) qs) c;
          output = ap (λ b. one_if b + tally (is_output n) qs) o;
          plain = ap (λ b. one_if b + tally (is_plain n) qs) p;
          found = λ start. ap (λ b. if b then some start else find_change n (start + 1) qs) c;
          size = refl;
        })
fold_at-Alike n (suc i) active (q ∷ qs) folded e =
    later (fold_at-Alike n i active qs) (fold_at i active qs) refl e
  where
    later :
        ((rest : List Queued) → fold_at i active qs ≡ some rest → Alike n qs rest)
        → (o : Option (List Queued)) → fold_at i active qs ≡ o
        → cons_queued q o ≡ some folded
        → Alike n (q ∷ qs) folded
    later ih none f e = absurd (ground (arith, e))
    later ih (some rest) f e =
        let h = ih rest f in
        subst (Alike n (q ∷ qs)) (some-inj _ _ e) (record {
          changed = omega (arith, h.changed);
          output = omega (arith, h.output);
          plain = omega (arith, h.plain);
          found = λ start.
              ap (λ o. if is_change n q.event then some start else o) (h.found (start + 1));
          size = ap suc h.size;
        })

is_change-with_state :
    (n : ℕ) (active : Bool) (e : SessionEvent)
    → is_change n e ≡ true
    → (new : SessionEvent) × (with_state active e ≡ some new)
is_change-with_state n active (SessionEvent.transaction_state_changed session queued) h = (_, refl)
is_change-with_state n active _ h = absurd (ground (arith, h))

-- A change that is queued is found at its place.
pub fold_at-found :
    (n start seq : ℕ) (active : Bool) (qs : List Queued)
    → find_change n start qs ≡ some seq
    → (start ≤ seq) × (folded : List Queued) × (fold_at (seq - start) active qs ≡ some folded)
unfolding fold_at
fold_at-found n start seq active [] e = absurd (ground (arith, e))
fold_at-found n start seq active (q ∷ qs) e = elim (Bool-cases (is_change n q.event)) [
  | inl is ↦
      let same : start ≡ seq = some-inj _ _ (rw is at e) in
      let (new, found) = is_change-with_state n active q.event is in
      let none_between : seq - start ≡ 0 = omega (arith, same) in
      (omega (arith, same), record q { event = new } ∷ qs, rw (none_between, fold_at, found) refl)
  | inr other ↦
      let (after_it, rest, found) = fold_at-found n (start + 1) seq active qs (rw other at e) in
      let one_more : seq - start ≡ suc (seq - (start + 1)) = omega (arith, after_it) in
      (omega (arith, after_it), q ∷ rest, rw (one_more, fold_at, found) refl)
]
