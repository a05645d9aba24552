-- ===== src/WorkQueue/Threads/Thief.antt =====
-- A step of a thief keeps the invariant of the queue with many threads, and so does every run.
use odin_memory_allocator.Base.{
  ℕ, ◌+◌, ◌-◌, ◌≤◌, ◌<◌, ◌≡◌, refl, sym, ap, subst, ◌∙◌, arith, ◌∷◌, Bool-cases, inl, inr, ◌==◌,
  ltb, ltb→lt, ==_iff, add32,
}
use odin_memory_allocator.Memory.{Memory}
use odin_memory_allocator.WorkQueue.{work_queue_size}
use odin_memory_allocator.WorkQueue.Threads.{
  OwnerAt, push_top, push_write, push_end, pop_down, pop_top, pop_read, pop_race, pop_last,
  pop_none, ThiefAt, steal_bottom, steal_read, steal_race, System, set_thief, owner_step,
  thief_from, thief_step, call_push, call_pop, call_steal, Step, pushes, pops, owner_goes_on,
  steals, thief_goes_on, made, Run, here, later,
}
use odin_memory_allocator.WorkQueue.Threads.Invariant.{
  one_if, count, count_from, end_at, Sees, ThiefKnows, OwnerKnows, Inv,
}
use odin_memory_allocator.WorkQueue.Threads.Owner.{
  ThiefKnows-pass, first_counted, call_push-Inv, call_pop-Inv, owner_from-Inv,
}

-- To prove something of every thief when one has moved.
set_thief_all :
    (P : ThiefAt → Type 0) (i : ℕ) (at : ThiefAt) (thief : ℕ → ThiefAt)
    → P at
    → ((j : ℕ) → P (thief j))
    → (j : ℕ) → P (set_thief i at thief j)
set_thief_all P i at thief moved rest j = elim (Bool-cases (j == i)) [
  | inl e ↦ rw e moved
  | inr e ↦ rw e (rest j)
]

-- The end is the bottom, or one behind it.
pub end_near :
    (s : System) (at : OwnerAt)
    → (s.bottom ≤ end_at at s.bottom) × (end_at at s.bottom ≤ s.bottom + 1)
end_near s OwnerAt.resting = omega arith
end_near s (push_top task b) = omega arith
end_near s (push_write task b t) = omega arith
end_near s (push_end task b) = omega arith
end_near s (pop_down b) = omega arith
end_near s (pop_top b) = omega arith
end_near s (pop_read b t) = omega arith
end_near s (pop_race b t x) = omega arith
end_near s (pop_last b x) = omega arith
end_near s (pop_none b) = omega arith

module _ (s : System) (i : ℕ) where
  abbrev moved : ThiefAt → System
  moved to = record s { thief = set_thief i to s.thief }

  -- What the owner knows stays so when a thief moves and knows as much of the bottom as before.
  owner_still :
      (at : OwnerAt) (to : ThiefAt)
      → ((b t : ℕ) → b ≡ s.bottom → Sees t b (s.thief i) → Sees t b to)
      → OwnerKnows at s
      → OwnerKnows at (moved to)
  owner_still OwnerAt.resting to h k = k
  owner_still (push_top task b) to h k = k
  owner_still (push_write task b t) to h k = k
  owner_still (push_end task b) to h k = k
  owner_still (pop_down b) to h k = k
  owner_still (pop_top b) to h k = k
  owner_still (pop_read b t) to h k =
      (k.0, k.1, k.2, set_thief_all (λ th. Sees t b th) i to s.thief (h b t k.0 (k.3 i)) k.3)
  owner_still (pop_race b t x) to h k = k
  owner_still (pop_last b x) to h k = k
  owner_still (pop_none b) to h k = k

  moves :
      (at : OwnerAt) (to : ThiefAt)
      → ((b t : ℕ) → b ≡ s.bottom → Sees t b (s.thief i) → Sees t b to)
      → ThiefKnows s.top (end_at at s.bottom) s.array to
      → Inv at s
      → Inv at (moved to)
  moves at to sees knows h = record {
    inside = h.inside;
    ordered = h.ordered;
    owner_knows = owner_still at to sees h.owner_knows;
    thief_knows =
        set_thief_all (λ th. ThiefKnows s.top (end_at at s.bottom) s.array th) i to s.thief knows
          h.thief_knows;
    balanced = h.balanced;
  }

  pub call_steal-Inv : (at : OwnerAt) → Inv at s → Inv at (call_steal i s)
  unfolding call_steal
  call_steal-Inv at h = moves at (steal_bottom s.top) (λ b t e k. tt) (omega arith) h

  rests : (at : OwnerAt) → Inv at s → Inv at (moved ThiefAt.resting)
  rests at h = moves at ThiefAt.resting (λ b t e k. tt) tt h

  module _ (t b x : ℕ) (stands : s.thief i ≡ steal_race t b x) (won : s.top ≡ t) where
    abbrev stolen : System
    stolen = record s {
      top = add32 t 1;
      thief = set_thief i ThiefAt.resting s.thief;
      taken = x ∷ s.taken;
    }

    owner_robbed :
        (at : OwnerAt) → add32 t 1 ≡ s.top + 1 → t < b → OwnerKnows at s → OwnerKnows at stolen
    owner_robbed OwnerAt.resting next lt k = k
    owner_robbed (push_top task b') next lt k = k
    owner_robbed (push_write task b' t') next lt k = k
    owner_robbed (push_end task b') next lt k = k
    owner_robbed (pop_down b') next lt k = k
    owner_robbed (pop_top b') next lt k = k
    owner_robbed (pop_read b' t') next lt k = (
      k.0,
      omega (arith, k.1, next),
      (λ more. ground (arith, k.1, next, lt, won, sees, more)),
      set_thief_all (λ th. Sees t' b' th) i ThiefAt.resting s.thief tt k.3,
    )
      where
        sees : t' < t → b ≤ b'
        sees = subst (λ th. Sees t' b' th) stands (k.3 i)
    owner_robbed (pop_race b' t' x') next lt k = k
    owner_robbed (pop_last b' x') next lt k = k
    owner_robbed (pop_none b') next lt k = k

    steals_it : (at : OwnerAt) → Inv at s → Inv at stolen
    steals_it at h = record {
      inside = h.inside;
      ordered = omega (arith, next, below, won);
      owner_knows = owner_robbed at next knows.1 h.owner_knows;
      thief_knows =
          set_thief_all (λ th. ThiefKnows (add32 t 1) (end_at at s.bottom) s.array th) i
            ThiefAt.resting s.thief tt
            (λ j.
              ThiefKnows-pass s.top (add32 t 1) (end_at at s.bottom) (end_at at s.bottom) s.array
                (s.thief j) (omega (arith, next)) (h.thief_knows j));
      balanced = λ y. rw next (
          omega (
            arith,
            first_counted s y (end_at at s.bottom) (omega (arith, below, won)),
            h.balanced y,
            same y,
          ));
    }
      where
        knows : ThiefKnows s.top (end_at at s.bottom) s.array (steal_race t b x)
        knows =
            subst (λ th. ThiefKnows s.top (end_at at s.bottom) s.array th) stands (h.thief_knows i)

        below : t < end_at at s.bottom
        below = knows.2 (omega (arith, won))

        next : add32 t 1 ≡ s.top + 1
        next = omega (arith, won, below, h.inside, (end_near s at).1)

        same : (y : ℕ) → one_if (s.array s.top) y ≡ one_if x y
        same y = ap (λ z. one_if z y) (ap s.array won ∙ knows.3 (omega (arith, won)))

  thief_from-Inv :
      (at : OwnerAt) (from : ThiefAt) → s.thief i ≡ from → Inv at s → Inv at (thief_from i from s)
  unfolding thief_from
  thief_from-Inv at ThiefAt.resting e h = h
  thief_from-Inv at (steal_bottom t) e h = elim (Bool-cases (ltb t s.bottom)) [
    | inl some_left ↦ rw some_left (
        moves at (steal_read t s.bottom) (λ b t' here k lt. omega (arith, here))
          (
            subst (λ th. ThiefKnows s.top (end_at at s.bottom) s.array th) e (h.thief_knows i),
            ltb→lt t s.bottom some_left,
            λ le. omega (arith, ltb→lt t s.bottom some_left, (end_near s at).0),
          )
          h)
    | inr none_left ↦ rw none_left (rests at h)
  ]
  thief_from-Inv at (steal_read t b) e h =
      moves at (steal_race t b (s.array t)) (λ b' t' here k. subst (λ th. Sees t' b' th) e k)
        (knows.0, knows.1, knows.2, λ le. refl) h
    where
      knows : ThiefKnows s.top (end_at at s.bottom) s.array (steal_read t b)
      knows = subst (λ th. ThiefKnows s.top (end_at at s.bottom) s.array th) e (h.thief_knows i)
  thief_from-Inv at (steal_race t b x) e h = elim (Bool-cases (s.top == t)) [
    | inl won ↦ rw won (steals_it t b x e ((==_iff s.top t).0 won) at h)
    | inr lost ↦ rw lost (rests at h)
  ]

  thief_from-owner : (from : ThiefAt) → (thief_from i from s).owner ≡ s.owner
  unfolding thief_from
  thief_from-owner ThiefAt.resting = refl
  thief_from-owner (steal_bottom t) = ground arith
  thief_from-owner (steal_read t b) = refl
  thief_from-owner (steal_race t b x) = ground arith

  thief_step-Inv : Inv s.owner s → Inv (thief_step i s).owner (thief_step i s)
  unfolding thief_step
  thief_step-Inv h =
      subst (λ at. Inv at (thief_from i (s.thief i) s)) (sym (thief_from-owner (s.thief i)))
        (thief_from-Inv s.owner (s.thief i) refl h)

Step-Inv : {s u : System} → Step s u → Inv s.owner s → u.bottom < work_queue_size → Inv u.owner u
unfolding call_push call_pop call_steal owner_step
Step-Inv {s} (pushes task e) h room = call_push-Inv task s (subst (λ at. Inv at s) e h)
Step-Inv {s} (pops e) h room = call_pop-Inv s (subst (λ at. Inv at s) e h)
Step-Inv {s} owner_goes_on h room = owner_from-Inv s s.owner refl h room
Step-Inv {s} (steals i e) h room = call_steal-Inv s i s.owner h
Step-Inv {s} (thief_goes_on i) h room = thief_step-Inv s i h

pub Run-Inv : {s u : System} → Inv s.owner s → Run s u → Inv u.owner u
Run-Inv h here = h
Run-Inv h (later r step room) = Step-Inv step (Run-Inv h r) room

pub made-Inv : (array : Memory) → Inv OwnerAt.resting (made array)
unfolding count_from
made-Inv array = record {
  inside = omega arith;
  ordered = omega arith;
  owner_knows = tt;
  thief_knows = λ i. tt;
  balanced = λ x. refl;
}

-- In every run of a new queue with one owner and any number of thieves, in any order of their
-- accesses, while the bottom index stays inside of the array: each task was taken and is between
-- the top and the end of the tasks together as often as it was pushed. The end is the bottom, or
-- one behind it while a `pop` has lowered the bottom and has not yet restored it or taken a task
-- from a longer queue.
pub Run-Balanced :
    (array : Memory) {s : System}
    → Run (made array) s
    → (s.top ≤ end_at s.owner s.bottom)
      × ((x : ℕ)
          → count x s.taken + count_from x s.array s.top (end_at s.owner s.bottom - s.top)
            ≡ count x s.pushed)
Run-Balanced array r = let h = Run-Inv (made-Inv array) r in (h.ordered, h.balanced)
