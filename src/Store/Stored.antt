-- ===== src/Store/Stored.antt =====
-- crates/db-core/src/store/result_store.rs: what `append` keeps true of the segments and their starts.
use reldex.Base.{
  ℕ, ◌+◌, ◌≤◌, ◌≡◌, refl, sym, ap, subst, ◌∙◌, inl, inr, Bool, true, false, ◌&&◌, Option, some,
  List, [], ◌∷◌, ◌++◌, arith, length, leb, some-inj, if◌then◌else◌,
}
use reldex.Driver.Types.{ColumnMetadata}
use reldex.Driver.Vectors.{push}
use reldex.Store.Ids.{ResultId}
use reldex.Store.Segment.{ResultSegment}
use reldex.Store.Policy.{ResultPolicy}
use reldex.Store.Result.{ResultStore, new_store}
use reldex.Store.Inputs.{last_rows, second_rows, differ, append}
use reldex.Store.Final.{Retained, retained, Grows, Step-Grows}
use reldex.Store.Reach.{Step, Reach, here, next}

abbrev pub total : List ResultSegment → ℕ
total [] = 0
total (x ∷ xs) = x.rows + total xs

abbrev pub starts_of : ℕ → List ResultSegment → List ℕ
starts_of start [] = []
starts_of start (x ∷ xs) = start ∷ starts_of (start + x.rows) xs

abbrev pub HaveRows : List ResultSegment → Type 0
HaveRows [] = Unit {0}
HaveRows (x ∷ xs) = (1 ≤ x.rows) × HaveRows xs

-- All segments but the last have this many rows.
abbrev pub AllBut : ℕ → List ResultSegment → Type 0
AllBut rows [] = Unit {0}
AllBut rows (x ∷ []) = Unit {0}
AllBut rows (x ∷ y ∷ xs) = (x.rows ≡ rows) × AllBut rows (y ∷ xs)

-- All between the first and the last have as many as the second.
abbrev pub AreUniform : List ResultSegment → Type 0
AreUniform (x ∷ y ∷ xs) = AllBut y.rows (y ∷ xs)
AreUniform _ = Unit {0}

pub record IsStored (r : Retained) : Type 0 where
  pub rows : HaveRows r.segments.items
  pub counted : r.retained_rows ≡ total r.segments.items
  pub started : r.starts.items ≡ starts_of 0 r.segments.items
  pub regular : r.uniform ≡ true → AreUniform r.segments.items

total-append :
    (xs : List ResultSegment) (x : ResultSegment) → total (xs ++ (x ∷ [])) ≡ total xs + x.rows
total-append [] x = omega arith
total-append (y ∷ xs) x = omega (arith, total-append xs x)

HaveRows-append :
    (xs : List ResultSegment) (x : ResultSegment)
    → HaveRows xs
    → 1 ≤ x.rows
    → HaveRows (xs ++ (x ∷ []))
HaveRows-append [] x h k = (k, tt)
HaveRows-append (y ∷ xs) x (p, h) k = (p, HaveRows-append xs x h k)

starts_of-append :
    (start : ℕ) (xs : List ResultSegment) (x : ResultSegment)
    → starts_of start (xs ++ (x ∷ [])) ≡ starts_of start xs ++ ((start + total xs) ∷ [])
starts_of-append start [] x = ap (λ n. n ∷ []) (omega arith)
starts_of-append start (y ∷ xs) x =
    ap (λ l. start ∷ l)
      (starts_of-append (start + y.rows) xs x
        ∙ ap (λ n. starts_of (start + y.rows) xs ++ (n ∷ [])) (omega arith))

AllBut-append :
    (rows : ℕ) (x : ResultSegment) (xs : List ResultSegment) (y : ResultSegment)
    → AllBut rows (x ∷ xs)
    → last_rows (x ∷ xs) ≡ some rows
    → AllBut rows ((x ∷ xs) ++ (y ∷ []))
AllBut-append rows x [] y h e = (some-inj _ _ e, tt)
AllBut-append rows x (z ∷ xs) y (p, h) e = (p, AllBut-append rows z xs y h e)

last_rows-some :
    (x : ResultSegment) (xs : List ResultSegment) → (n : ℕ) × (last_rows (x ∷ xs) ≡ some n)
last_rows-some x [] = (x.rows, refl)
last_rows-some x (y ∷ xs) = last_rows-some y xs

same_rows : (a b : ℕ) (o : Option ℕ) → o ≡ some b → differ (some a) o ≡ false → o ≡ some a
same_rows a b o e h = ground arith

AreUniform-append :
    (xs : List ResultSegment) (x : ResultSegment)
    → AreUniform xs
    → (leb 3 (length xs) && differ (second_rows xs) (last_rows xs)) ≡ false
    → AreUniform (xs ++ (x ∷ []))
AreUniform-append [] x h e = tt
AreUniform-append (a ∷ []) x h e = tt
AreUniform-append (a ∷ b ∷ []) x h e = (refl, tt)
AreUniform-append (a ∷ b ∷ c ∷ ds) x h e =
    let (n, last) = last_rows-some c ds in
    AllBut-append b.rows b (c ∷ ds) x h
      (same_rows b.rows n (last_rows (c ∷ ds)) last (ground (arith, e)))

still_uniform :
    (skewed uniform : Bool)
    → (if skewed then false else uniform) ≡ true
    → (skewed ≡ false) × (uniform ≡ true)
still_uniform skewed uniform h = ground arith

append-IsStored :
    (s : ResultStore) (segment : ResultSegment)
    → IsStored (retained s)
    → 1 ≤ segment.rows
    → IsStored (retained (append s segment))
unfolding append push
append-IsStored s segment h k = record {
  rows = HaveRows-append s.segments.items segment h.rows k;
  counted = omega (arith, total-append s.segments.items segment, h.counted);
  started =
      ap (λ l. l ++ (s.retained_rows ∷ [])) h.started
      ∙ ap (λ n. starts_of 0 s.segments.items ++ (n ∷ [])) (omega (arith, h.counted))
      ∙ sym (starts_of-append 0 s.segments.items segment);
  regular = λ u.
      let (skewed, uniform) =
        still_uniform
          (leb 3 (length s.segments.items)
            && differ (second_rows s.segments.items) (last_rows s.segments.items))
          s.uniform u in
      AreUniform-append s.segments.items segment (h.regular uniform) skewed;
}

Step-IsStored : {s t : ResultStore} → Step s t → IsStored (retained s) → IsStored (retained t)
Step-IsStored {s = s} {t = t} st h = after (Step-Grows st)
  where
    after : Grows s t → IsStored (retained t)
    after (inl same) = subst IsStored (sym same) h
    after (inr (a, segment, rows, e)) = subst IsStored (sym e) (append-IsStored s segment h rows)

Reach-IsStored_from :
    {s t : ResultStore} → Reach s t → IsStored (retained s) → IsStored (retained t)
Reach-IsStored_from here h = h
Reach-IsStored_from (next r st) h = Step-IsStored st (Reach-IsStored_from r h)

new_store-IsStored :
    (result : ResultId) (columns : List ColumnMetadata) (policy : ResultPolicy)
    → IsStored (retained (new_store result columns policy))
unfolding new_store
new_store-IsStored result columns policy = record {
  rows = tt;
  counted = refl;
  started = refl;
  regular = λ u. tt;
}

-- In every state that a new store reaches, no segment is empty, the rows retained are those of the
-- segments, each segment's start is the number of rows before it, and a store that says so has as many
-- rows in every segment between the first and the last as in the second.
pub Reach-IsStored :
    (result : ResultId) (columns : List ColumnMetadata) (policy : ResultPolicy) (s : ResultStore)
    → Reach (new_store result columns policy) s
    → IsStored (retained s)
Reach-IsStored result columns policy s r =
    Reach-IsStored_from r (new_store-IsStored result columns policy)
