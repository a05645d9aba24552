-- ===== src/WorkQueue/Threads/Progress.antt =====
-- The exchange of a thief fails only where another thread made progress.
use odin_memory_allocator.Base.{
  ℕ, ◌+◌, ◌<◌, ◌≡◌, ◌⊎◌, refl, subst, arith, ◌∷◌, Bool-cases, inl, inr, ◌==◌, ==_iff, add32,
}
use odin_memory_allocator.Memory.{Memory}
use odin_memory_allocator.WorkQueue.Threads.{steal_race, System, thief_from, thief_step, made, Run}
use odin_memory_allocator.WorkQueue.Threads.Invariant.{end_at, ThiefKnows, Inv}
use odin_memory_allocator.WorkQueue.Threads.Thief.{Run-Inv, made-Inv, end_near}

-- In every state of a run of a new queue in which the bottom index stays inside of the array, the
-- exchange of a thief either takes the task at the top, moving the top past it, or fails because
-- the top has moved since the thief loaded it.
pub exchange_or_progress :
    (array : Memory) {s : System}
    → Run (made array) s
    → (i t b x : ℕ) → s.thief i ≡ steal_race t b x
    → ((s.top ≡ t)
        × (s.array t ≡ x)
        × ((thief_step i s).taken ≡ x ∷ s.taken)
        × ((thief_step i s).top ≡ t + 1))
      ⊎ ((t < s.top) × ((thief_step i s).taken ≡ s.taken) × ((thief_step i s).top ≡ s.top))
unfolding thief_step thief_from
exchange_or_progress array {s} r i t b x e = elim (Bool-cases (s.top == t)) [
  | inl won ↦
      let at_top : s.top ≡ t = (==_iff s.top t).0 won in
      inl (at_top, knows.3 (omega (arith, at_top)), rw (e, won) refl, rw (e, won) (small at_top))
  | inr lost ↦ inr (ground (arith, knows.0), rw (e, lost) refl, rw (e, lost) refl)
]
  where
    h : Inv s.owner s
    h = Run-Inv (made-Inv array) r

    knows : ThiefKnows s.top (end_at s.owner s.bottom) s.array (steal_race t b x)
    knows = subst (λ th. ThiefKnows s.top (end_at s.owner s.bottom) s.array th) e (h.thief_knows i)

    small : s.top ≡ t → add32 t 1 ≡ t + 1
    small at_top = omega (arith, at_top, h.ordered, h.inside, (end_near s s.owner).1)
