-- ===== src/WorkQueue/Threads/Invariant.antt =====
-- What holds of every state of the queue with many threads: where each thread stands says what it
-- knows, and the tasks in the array make up for what was pushed and not taken.
use odin_memory_allocator.Base.{
  ℕ, zero, suc, ◌+◌, ◌-◌, ◌≤◌, ◌<◌, ◌≡◌, refl, ap, arith, List, [], ◌∷◌, ◌==◌, if◌then◌else◌,
}
use odin_memory_allocator.Memory.{Memory, store, store_ne}
use odin_memory_allocator.WorkQueue.{work_queue_size}
use odin_memory_allocator.WorkQueue.Threads.{
  OwnerAt, push_top, push_write, push_end, pop_down, pop_top, pop_read, pop_race, pop_last,
  pop_none, ThiefAt, steal_bottom, steal_read, steal_race, System,
}

abbrev pub one_if : ℕ → ℕ → ℕ
one_if y x = if y == x then 1 else 0

abbrev pub count : ℕ → List ℕ → ℕ
count x [] = 0
count x (y ∷ ys) = one_if y x + count x ys

-- How often `x` stands at the `n` indices from `i` on.
unfoldable pub count_from : (x : ℕ) → Memory → (i n : ℕ) → ℕ
count_from x a i zero = 0
count_from x a i (suc n) = one_if (a i) x + count_from x a (suc i) n

pub count_from-first :
    (x : ℕ) (a : Memory) (i n : ℕ)
    → count_from x a i (suc n) ≡ one_if (a i) x + count_from x a (suc i) n
unfolding count_from
count_from-first x a i n = refl

pub count_from-last :
    (x : ℕ) (a : Memory) (i n : ℕ)
    → count_from x a i (suc n) ≡ count_from x a i n + one_if (a (i + n)) x
unfolding count_from
count_from-last x a i zero = ground (arith, ap a (plus_zero i))
  where
    plus_zero : (k : ℕ) → k + 0 ≡ k
    plus_zero k = omega arith
count_from-last x a i (suc n) = ground (arith, count_from-last x a (suc i) n, ap a (shift i n))
  where
    shift : (k l : ℕ) → suc k + l ≡ k + suc l
    shift k l = omega arith

pub count_from-store :
    (x : ℕ) (a : Memory) (i n b v : ℕ)
    → i + n ≤ b
    → count_from x (store b v a) i n ≡ count_from x a i n
unfolding count_from
count_from-store x a i zero b v h = refl
count_from-store x a i (suc n) b v h = ground (
  arith,
  store_ne b v i a (omega (arith, h)),
  count_from-store x a (suc i) n b v (omega (arith, h)),
)

-- The end of the tasks in the array. From the store of the lower bottom until the task is the
-- owner's, it lies one behind the bottom.
abbrev pub end_at : OwnerAt → ℕ → ℕ
end_at (pop_top b) bottom = bottom + 1
end_at (pop_read b t) bottom = bottom + 1
end_at (pop_race b t x) bottom = bottom + 1
end_at (pop_last b x) bottom = bottom + 1
end_at (pop_none b) bottom = bottom + 1
end_at at bottom = bottom

-- A thief that loaded the top after the owner did has seen the lower bottom.
abbrev pub Sees : (t b : ℕ) → ThiefAt → Type 0
Sees t b (steal_read t' b') = t < t' → b' ≤ b
Sees t b (steal_race t' b' x) = t < t' → b' ≤ b
Sees t b at = Unit

abbrev pub ThiefKnows : (top end : ℕ) → Memory → ThiefAt → Type 0
ThiefKnows top end a ThiefAt.resting = Unit
ThiefKnows top end a (steal_bottom t) = t ≤ top
ThiefKnows top end a (steal_read t b) = (t ≤ top) × (t < b) × (top ≤ t → t < end)
ThiefKnows top end a (steal_race t b x) =
    (t ≤ top) × (t < b) × (top ≤ t → t < end) × (top ≤ t → a t ≡ x)

abbrev pub OwnerKnows : OwnerAt → System → Type 0
OwnerKnows OwnerAt.resting s = Unit
OwnerKnows (push_top task b) s = b ≡ s.bottom
OwnerKnows (push_write task b t) s = b ≡ s.bottom
OwnerKnows (push_end task b) s = (b ≡ s.bottom) × (s.array b ≡ task)
OwnerKnows (pop_down b) s = (0 < s.bottom → b + 1 ≡ s.bottom) × (s.bottom ≡ 0 → work_queue_size ≤ b)
OwnerKnows (pop_top b) s = b ≡ s.bottom
OwnerKnows (pop_read b t) s =
    (b ≡ s.bottom) × (t ≤ s.top) × (t < b → s.top ≤ b) × ((i : ℕ) → Sees t b (s.thief i))
OwnerKnows (pop_race b t x) s = (b ≡ s.bottom) × (t ≡ b) × (s.array b ≡ x)
OwnerKnows (pop_last b x) s = b ≡ s.bottom
OwnerKnows (pop_none b) s = b ≡ s.bottom

-- The tasks between the top and the end make up for what was pushed and not taken.
abbrev pub Balanced : System → (end : ℕ) → Type 0
Balanced s end =
    (x : ℕ) → count x s.taken + count_from x s.array s.top (end - s.top) ≡ count x s.pushed

-- The invariant, for an owner who stands at `at`.
pub record Inv (at : OwnerAt) (s : System) : Type 0 where
  pub inside : s.bottom < work_queue_size
  pub ordered : s.top ≤ end_at at s.bottom
  pub owner_knows : OwnerKnows at s
  pub thief_knows : (i : ℕ) → ThiefKnows s.top (end_at at s.bottom) s.array (s.thief i)
  pub balanced : Balanced s (end_at at s.bottom)
