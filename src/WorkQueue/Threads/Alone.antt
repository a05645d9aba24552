-- ===== src/WorkQueue/Threads/Alone.antt =====
-- A call of the work stealing queue that no other thread interrupts works on the sequence of tasks
-- that the queue holds.
use odin_memory_allocator.Base.{
  ℕ, zero, suc, ◌≢◌, sym, ap, subst, ◌∙◌, List, ◌≡◌, ◌⊎◌, inl, inr, refl, ◌∷◌, true, Bool-cases,
  ◌==◌, ltb, ==_iff,
}
use odin_memory_allocator.Memory.{null}
use odin_memory_allocator.WorkQueue.{WorkStealQueue, steal}
use odin_memory_allocator.WorkQueue.Stealing.{Holds, steal-Holds}
use odin_memory_allocator.WorkQueue.Threads.{ThiefAt, System, thief_step, thief_from, call_steal}

unfoldable pub iterate : {S : Type 0} → ℕ → (S → S) → S → S
iterate zero f s = s
iterate (suc n) f s = iterate n f (f s)

abbrev pub shared : System → WorkStealQueue
shared s = record { top = s.top; bottom = s.bottom; array = s.array }

steal_alone :
    (i : ℕ) (s : System)
    → let u = iterate 3 (thief_step i) (call_steal i s) in
      (shared u ≡ (steal (shared s)).1)
      × ((u.taken ≡ (steal (shared s)).0 ∷ s.taken)
          ⊎ ((u.taken ≡ s.taken) × ((steal (shared s)).0 ≡ null)))
      × (u.thief i ≡ ThiefAt.resting)
unfolding iterate thief_step thief_from call_steal steal
steal_alone i s = elim (Bool-cases (ltb s.top s.bottom)) [
  | inr empty ↦ rw (here, empty, here, here) (refl, inr (refl, refl), rw here refl)
  | inl some_left ↦ rw (here, some_left, here, here, top_same) (refl, inl refl, rw here refl)
]
  where
    here : (i == i) ≡ true
    here = (==_iff i i).1 refl

    top_same : (s.top == s.top) ≡ true
    top_same = (==_iff s.top s.top).1 refl

-- What a call took, where it returns a task.
took :
    (before after : List ℕ) (returned x : ℕ)
    → returned ≡ x
    → x ≢ null
    → (after ≡ returned ∷ before) ⊎ ((after ≡ before) × (returned ≡ null))
    → after ≡ x ∷ before
took before after returned x e a_task (inl taken) = taken ∙ ap (λ r. r ∷ before) e
took before after returned x e a_task (inr (same, none)) = absurd (a_task (sym e ∙ none))

-- Where the queue holds a task `x` that is not null and then `xs`: a `steal` of thief `i` whose
-- steps no other thread interrupts takes `x` and leaves `xs`, within three steps.
pub steal_alone-Holds :
    (i : ℕ) (s : System) (x : ℕ) (xs : List ℕ)
    → Holds (shared s) (x ∷ xs)
    → x ≢ null
    → let u = iterate 3 (thief_step i) (call_steal i s) in
      Holds (shared u) xs × (u.taken ≡ x ∷ s.taken) × (u.thief i ≡ ThiefAt.resting)
steal_alone-Holds i s x xs h a_task =
    let (left, got, rests) = steal_alone i s in
    let (gives, keeps) = steal-Holds (shared s) x xs h in
    (
      subst (λ q. Holds q xs) (sym left) keeps,
      took s.taken _ (steal (shared s)).0 x gives a_task got,
      rests,
    )
