-- ===== src/Halt/Events.antt =====
-- The list of transitions that operators see: the newest of the audit log, the newest first.
use mathlib.Core.List.{Perm}
use mathlib.Core.List.Perm
use trading_strands.Prelude.{
  ℕ, zero, suc, ◌≡◌, refl, ap, List, [], ◌∷◌, ◌++◌, leb, arith, ◌≤◌, All, length, Bool-cases, ◌⊎◌,
  inl, inr,
}
use trading_strands.Halt.Store.{
  HaltEvent, HaltTable, insert_event, sort_events, take_events, list_events,
}

-- Each event is at least as new as all that follow it.
abbrev pub NewestFirst : List HaltEvent → Type 0
NewestFirst [] = Unit {0}
NewestFirst (e ∷ es) = All (λ x. x.ts ≤ e.ts) es × NewestFirst es

insert_event-Perm : (e : HaltEvent) (es : List HaltEvent) → Perm (insert_event e es) (e ∷ es)
unfolding insert_event
insert_event-Perm e [] = Perm.refl (e ∷ [])
insert_event-Perm e (x ∷ xs) = elim (Bool-cases (leb x.ts e.ts)) [
  | inl newer ↦ rw newer (Perm.refl (e ∷ x ∷ xs))
  | inr older ↦ rw older (Perm.trans (Perm.cons x (insert_event-Perm e xs)) (Perm.swap e x xs))
]

sort_events-Perm : (es : List HaltEvent) → Perm (sort_events es) es
unfolding sort_events
sort_events-Perm [] = Perm.refl []
sort_events-Perm (e ∷ es) =
    Perm.trans (insert_event-Perm e (sort_events es)) (Perm.cons e (sort_events-Perm es))

insert_event-All :
    (n : ℕ) (e : HaltEvent) (es : List HaltEvent)
    → e.ts ≤ n
    → All (λ x. x.ts ≤ n) es
    → All (λ x. x.ts ≤ n) (insert_event e es)
unfolding insert_event
insert_event-All n e [] h a = (h, tt)
insert_event-All n e (x ∷ xs) h a = elim (Bool-cases (leb x.ts e.ts)) [
  | inl newer ↦ rw newer (h, a)
  | inr older ↦ rw older (a.0, insert_event-All n e xs h a.1)
]

All-weaken :
    (n m : ℕ) (es : List HaltEvent) → n ≤ m → All (λ x. x.ts ≤ n) es → All (λ x. x.ts ≤ m) es
All-weaken n m [] h a = tt
All-weaken n m (x ∷ xs) h a = (omega (arith, a.0), All-weaken n m xs h a.1)

insert_event-NewestFirst :
    (e : HaltEvent) (es : List HaltEvent) → NewestFirst es → NewestFirst (insert_event e es)
unfolding insert_event
insert_event-NewestFirst e [] s = (tt, tt)
insert_event-NewestFirst e (x ∷ xs) s = elim (Bool-cases (leb x.ts e.ts)) [
  | inl newer ↦
      let below : x.ts ≤ e.ts = ground arith in
      rw newer ((below, All-weaken x.ts e.ts xs below s.0), s)
  | inr older ↦
      rw older (insert_event-All x.ts e xs (ground arith) s.0, insert_event-NewestFirst e xs s.1)
]

sort_events-NewestFirst : (es : List HaltEvent) → NewestFirst (sort_events es)
unfolding sort_events
sort_events-NewestFirst [] = tt
sort_events-NewestFirst (e ∷ es) =
    insert_event-NewestFirst e (sort_events es) (sort_events-NewestFirst es)

-- What `take_events` leaves out.
rest_of : ℕ → List HaltEvent → List HaltEvent
rest_of zero es = es
rest_of (suc n) [] = []
rest_of (suc n) (e ∷ es) = rest_of n es

take-rest : (n : ℕ) (es : List HaltEvent) → take_events n es ++ rest_of n es ≡ es
unfolding take_events rest_of
take-rest zero es = refl
take-rest (suc n) [] = refl
take-rest (suc n) (e ∷ es) = ap (λ r. e ∷ r) (take-rest n es)

length-take_events :
    (n : ℕ) (es : List HaltEvent)
    → (length (take_events n es) ≤ n) × ((length (take_events n es) ≡ n) ⊎ (rest_of n es ≡ []))
unfolding take_events rest_of
length-take_events zero es = (omega arith, inl refl)
length-take_events (suc n) [] = (omega arith, inr refl)
length-take_events (suc n) (e ∷ es) =
    let (short, full) = length-take_events n es in
    (omega (arith, short), elim full [ inl l ↦ inl (ap suc l) | inr r ↦ inr r ])

-- A list of transitions and what it leaves out: together they are the log, the newest first, and
-- nothing is left out unless the limit is reached.
pub record Recent (limit : ℕ) (log shown : List HaltEvent) : Type 0 where
  pub hidden : List HaltEvent
  pub complete : Perm (shown ++ hidden) log
  pub ordered : NewestFirst (shown ++ hidden)
  pub bounded : length shown ≤ limit
  pub filled : (length shown ≡ limit) ⊎ (hidden ≡ [])

-- `list_events` shows at most `limit` transitions of the log, each once, the newest first, leaves
-- out none that is newer than one it shows, and shows them all where there are no more than the limit.
pub list_events-Recent : (limit : ℕ) (t : HaltTable) → Recent limit t.events (list_events limit t)
unfolding list_events
list_events-Recent limit t =
    let sorted = sort_events t.events in
    let whole = take-rest limit sorted in
    let (short, full) = length-take_events limit sorted in
    record {
      hidden = rest_of limit sorted;
      complete = rw whole (sort_events-Perm t.events);
      ordered = rw whole (sort_events-NewestFirst t.events);
      bounded = short;
      filled = full;
    }
