-- ===== src/Scheduler/Finish.antt =====
-- The end of a task goes up the line of its parents.
use odin_memory_allocator.Base.{
  ℕ, suc, ℕ_discrete, sym, subst, ◌≡◌, ◌≢◌, refl, ap, ◌∙◌, arith, List, [], ◌∷◌, length, All, Bool,
  true, false, some, ◌==◌, ◌!=◌, ◌&&◌, ◌++◌, Bool-cases, inl, inr, if◌then◌else◌, sub32,
}
use odin_memory_allocator.Base.Fuel.{◌>>=◌}
use odin_memory_allocator.Memory.{null}
use odin_memory_allocator.Scheduler.{
  Task, Tasks, set_open, finish_task, return_to_pool, get_pool_index_from_task_id,
}

-- `xs` are the parent of `t`, its parent, and so on.
abbrev pub Line : (ℕ → Task) → ℕ → List ℕ → Type 0
Line tasks t [] = (tasks t).parent ≡ null
Line tasks t (x ∷ xs) = ((tasks t).parent ≡ x) × (x ≢ null) × Line tasks x xs

abbrev pub Apart : List ℕ → Type 0
Apart [] = Unit
Apart (x ∷ xs) = All (λ y. y ≢ x) xs × Apart xs

abbrev pub member : ℕ → List ℕ → Bool
member y [] = false
member y (x ∷ xs) = if y == x then true else member y xs

parent_kept :
    (t count : ℕ) (tasks : ℕ → Task) (x : ℕ) → (set_open t count tasks x).parent ≡ (tasks x).parent
parent_kept t count tasks x = by_test (x == t)
  where
    by_test :
        (b : Bool)
        → (if b then record (tasks x) { open_tasks = count } else tasks x).parent ≡ (tasks x).parent
    by_test true = refl
    by_test false = refl

Line-kept :
    (t count : ℕ) (tasks : ℕ → Task) (x : ℕ) (xs : List ℕ)
    → Line tasks x xs
    → Line (set_open t count tasks) x xs
Line-kept t count tasks x [] l = parent_kept t count tasks x ∙ l
Line-kept t count tasks x (y ∷ ys) l =
    (parent_kept t count tasks x ∙ l.0, l.1, Line-kept t count tasks y ys l.2)

not_member : (y : ℕ) (xs : List ℕ) → All (λ x. x ≢ y) xs → member y xs ≡ false
not_member y [] a = refl
not_member y (x ∷ xs) a = ground (arith, a.0, not_member y xs a.1)

abbrev pub left_open : Tasks → ℕ → ℕ
left_open s y = sub32 (s.task y).open_tasks 1

abbrev pub ends : Tasks → ℕ → Bool
ends s y = left_open s y == 0

abbrev pub pool_of : Tasks → ℕ → ℕ
pool_of s y = get_pool_index_from_task_id (s.task y).task_id

-- Those of the line that have no open task left, with their pools.
abbrev pub ended : Tasks → List ℕ → List (ℕ × ℕ)
ended s [] = []
ended s (x ∷ xs) = if ends s x then (pool_of s x, x) ∷ ended s xs else ended s xs

-- One open task less for each of the line; those without one left are given back, the first of the
-- line last, and their first words hold links.
pub record IsClosed (before after : Tasks) (xs : List ℕ) : Type 0 where
  pub counts :
      (y : ℕ)
      → (member y xs && ends before y) ≡ false
      → (after.task y).open_tasks
        ≡ (if member y xs then left_open before y else (before.task y).open_tasks)
  pub returned : after.returned ≡ ended before xs ++ before.returned

-- One open task less for `t` alone.
abbrev closed : ℕ → Tasks → Tasks
closed t s = record s { task = set_open t (sub32 (s.task t).open_tasks 1) s.task }

abbrev finished : ℕ → (before after : Tasks) → Tasks
finished t before after =
    return_to_pool t (sub32 (before.task t).open_tasks 1) (before.task t) after

finish_root :
    (n t : ℕ) (s : Tasks)
    → (s.task t).parent ≡ null
    → finish_task (suc n) t s ≡ some (finished t s (closed t s))
unfolding finish_task
finish_root n t s e =
    ap
      (λ b.
        (if b then finish_task n (s.task t).parent (closed t s) else some (closed t s)) >>= λ s2.
        some (finished t s s2))
      root
  where
    root : ((s.task t).parent != null) ≡ false
    root = ground (arith, e)

finish_child :
    (n t x : ℕ) (s u : Tasks)
    → (s.task t).parent ≡ x
    → x ≢ null
    → finish_task n x (closed t s) ≡ some u
    → finish_task (suc n) t s ≡ some (finished t s u)
unfolding finish_task
finish_child n t x s u e ne above =
    ap
      (λ b.
        (if b then finish_task n (s.task t).parent (closed t s) else some (closed t s)) >>= λ s2.
        some (finished t s s2))
      child
    ∙ ap (λ p. finish_task n p (closed t s) >>= λ s2. some (finished t s s2)) e
    ∙ ap (λ r. r >>= λ s2. some (finished t s s2)) above
  where
    child : ((s.task t).parent != null) ≡ true
    child = ground (arith, e, ne)

test_self : (t : ℕ) → (t == t) ≡ true
test_self t = ground arith

test_ne : (y t : ℕ) → y ≢ t → (y == t) ≡ false
test_ne y t ne = ground arith

closed_ne : (t : ℕ) (s : Tasks) (y : ℕ) → y ≢ t → (closed t s).task y ≡ s.task y
closed_ne t s y ne = rw (test_ne y t ne) refl

closed_self : (t : ℕ) (s : Tasks) → ((closed t s).task t).open_tasks ≡ left_open s t
closed_self t s = rw (test_self t) refl

module _ (t : ℕ) (before after : Tasks) where
  -- What giving back `t` leaves.
  finished_ne : (y : ℕ) → y ≢ t → (finished t before after).task y ≡ after.task y
  unfolding return_to_pool
  finished_ne y ne = elim (Bool-cases (ends before t)) [
    | inl e ↦ rw (e, test_ne y t ne) refl
    | inr e ↦ rw e refl
  ]

  finished_open : ends before t ≡ false → (finished t before after).task t ≡ after.task t
  unfolding return_to_pool
  finished_open e = rw e refl

  finished_returned :
      (finished t before after).returned
      ≡ (if ends before t then (pool_of before t, t) ∷ after.returned else after.returned)
  unfolding return_to_pool
  finished_returned = elim (Bool-cases (ends before t)) [ inl e ↦ rw e refl | inr e ↦ rw e refl ]

ended-closed :
    (t : ℕ) (s : Tasks) (xs : List ℕ) → All (λ y. y ≢ t) xs → ended (closed t s) xs ≡ ended s xs
ended-closed t s [] a = refl
ended-closed t s (x ∷ xs) a = rw (test_ne x t a.0, ended-closed t s xs a.1) refl

counts_self :
    (t : ℕ) (xs : List ℕ) (s u : Tasks)
    → All (λ y. y ≢ t) xs
    → IsClosed (closed t s) u xs
    → (member t (t ∷ xs) && ends s t) ≡ false
    → ((finished t s u).task t).open_tasks
      ≡ (if member t (t ∷ xs) then left_open s t else (s.task t).open_tasks)
counts_self t xs s u a c still =
    ap (λ k. k.open_tasks) (finished_open t s u (sym (own (ends s t)) ∙ still))
    ∙ c.counts t (rw (not_member t xs a) refl)
    ∙ rw (not_member t xs a, test_self t) refl
  where
    own : (b : Bool) → (member t (t ∷ xs) && b) ≡ b
    own b = rw (test_self t) refl

counts_ne :
    (t : ℕ) (xs : List ℕ) (s u : Tasks)
    → IsClosed (closed t s) u xs
    → (y : ℕ) → y ≢ t
    → (member y (t ∷ xs) && ends s y) ≡ false
    → ((finished t s u).task y).open_tasks
      ≡ (if member y (t ∷ xs) then left_open s y else (s.task y).open_tasks)
counts_ne t xs s u c y ne still =
    ap (λ k. k.open_tasks) (finished_ne t s u y ne)
    ∙ c.counts y (same ∙ still)
    ∙ rw (test_ne y t ne) refl
  where
    same : (member y xs && ends (closed t s) y) ≡ (member y (t ∷ xs) && ends s y)
    same = rw (test_ne y t ne) refl

-- The task and the line above it.
closes_more :
    (t : ℕ) (xs : List ℕ) (s u : Tasks)
    → All (λ y. y ≢ t) xs
    → IsClosed (closed t s) u xs
    → IsClosed s (finished t s u) (t ∷ xs)
closes_more t xs s u a c = record {
  counts = counted;
  returned =
      finished_returned t s u
      ∙ ap (λ r. if ends s t then (pool_of s t, t) ∷ r else r)
          (c.returned ∙ ap (λ e. e ++ s.returned) (ended-closed t s xs a))
      ∙ by_end (ends s t);
}
  where
    by_end :
        (b : Bool)
        → (if b then (pool_of s t, t) ∷ (ended s xs ++ s.returned) else ended s xs ++ s.returned)
          ≡ (if b then (pool_of s t, t) ∷ ended s xs else ended s xs) ++ s.returned
    by_end true = refl
    by_end false = refl

    counted :
        (y : ℕ)
        → (member y (t ∷ xs) && ends s y) ≡ false
        → ((finished t s u).task y).open_tasks
          ≡ (if member y (t ∷ xs) then left_open s y else (s.task y).open_tasks)
    counted y still = elim (ℕ_discrete y t) [
      | yes e ↦
          subst
            (λ z.
              ((finished t s u).task z).open_tasks
              ≡ (if member z (t ∷ xs) then left_open s z else (s.task z).open_tasks))
            (sym e)
            (counts_self t xs s u a c
              (subst (λ z. (member z (t ∷ xs) && ends s z) ≡ false) e still))
      | no ne ↦ counts_ne t xs s u c y ne still
    ]

-- For a task whose parents are `xs` up to null, all different, `finishTask` returns with fuel for
-- the task and its parents. The task and each of the parents then have one open task less, modulo
-- the word, as long as one is left, and no other task has changed its count. Those that have none
-- left are given back to their pools, the ancestors first.
pub finish_task_closes_ancestors :
    (t : ℕ) (xs : List ℕ) (s : Tasks)
    → Line s.task t xs
    → Apart (t ∷ xs)
    → (after : Tasks) × (finish_task (suc (length xs)) t s ≡ some after) × IsClosed s after (t ∷ xs)
finish_task_closes_ancestors t [] s l a = (
  finished t s (closed t s),
  finish_root 0 t s l,
  closes_more t [] s (closed t s) tt record { counts = λ y still. refl; returned = refl },
)
finish_task_closes_ancestors t (x ∷ xs) s l a =
    let (u, e, c) =
      finish_task_closes_ancestors x xs (closed t s) (Line-kept t _ s.task x xs l.2) a.1 in
    (
      finished t s u,
      finish_child (suc (length xs)) t x s u l.0 l.1 e,
      closes_more t (x ∷ xs) s u a.0 c,
    )
