-- ===== src/WorkQueue/Threads/Owner.antt =====
-- A step of the owner keeps the invariant of the queue with many threads.

use odin_memory_allocator.Base.{
  ℕ, ◌+◌, ◌-◌, ◌≤◌, ◌<◌, ◌≡◌, refl, sym, ap, subst, ◌∙◌, arith, ◌∷◌, Bool-cases, inl, inr, ◌==◌,
  leb, ==_iff, add32, sub32,
}
use odin_memory_allocator.Memory.{Memory, null, store, store_self, store_ne}
use odin_memory_allocator.WorkQueue.{work_queue_size}
use odin_memory_allocator.WorkQueue.Threads.{
  OwnerAt, push_top, push_write, push_end, pop_down, pop_top, pop_read, pop_race, pop_last,
  pop_none, ThiefAt, steal_bottom, steal_read, steal_race, System, owner_from, call_push, call_pop,
}
use odin_memory_allocator.WorkQueue.Threads.Invariant.{
  one_if, count, count_from, count_from-first, count_from-last, count_from-store, end_at, Sees,
  ThiefKnows, Inv,
}

-- What a thief knows stays so while the top stays, the end does not come down and no task below
-- the end is overwritten.
ThiefKnows-grow :
    (top end end' : ℕ) (a a' : Memory) (at : ThiefAt)
    → end ≤ end'
    → ((i : ℕ) → i < end → a' i ≡ a i)
    → ThiefKnows top end a at
    → ThiefKnows top end' a' at
ThiefKnows-grow top end end' a a' ThiefAt.resting h same k = tt
ThiefKnows-grow top end end' a a' (steal_bottom t) h same k = k
ThiefKnows-grow top end end' a a' (steal_read t b) h same k =
    (k.0, k.1, λ le. omega (arith, h, k.2 le))
ThiefKnows-grow top end end' a a' (steal_race t b x) h same k =
    (k.0, k.1, (λ le. omega (arith, h, k.2 le)), λ le. same t (k.2 le) ∙ k.3 le)

-- What a thief knows when the top has moved on.
pub ThiefKnows-pass :
    (top top' end end' : ℕ) (a : Memory) (at : ThiefAt)
    → top < top'
    → ThiefKnows top end a at
    → ThiefKnows top' end' a at
ThiefKnows-pass top top' end end' a ThiefAt.resting h k = tt
ThiefKnows-pass top top' end end' a (steal_bottom t) h k = omega arith
ThiefKnows-pass top top' end end' a (steal_read t b) h k =
    (omega arith, k.1, λ le. absurd (omega (arith, h, k.0, le)))
ThiefKnows-pass top top' end end' a (steal_race t b x) h k = (
  omega arith,
  k.1,
  (λ le. absurd (omega (arith, h, k.0, le))),
  λ le. absurd (omega (arith, h, k.0, le)),
)

-- What a thief knows when the owner has taken the last of several tasks.
ThiefKnows-shrink :
    (top b t : ℕ) (a : Memory) (at : ThiefAt)
    → t ≤ top
    → t < b
    → Sees t b at
    → ThiefKnows top (b + 1) a at
    → ThiefKnows top b a at
ThiefKnows-shrink top b t a ThiefAt.resting le lt sees k = tt
ThiefKnows-shrink top b t a (steal_bottom t') le lt sees k = k
ThiefKnows-shrink top b t a (steal_read t' b') le lt sees k =
    (k.0, k.1, λ h. ground (arith, k, sees, h))
ThiefKnows-shrink top b t a (steal_race t' b' x) le lt sees k =
    (k.0, k.1, (λ h. ground (arith, k.0, k.1, sees, h)), k.3)

-- A thief that has not gone past the top that the owner loaded.
Sees-fresh : (top end b : ℕ) (a : Memory) (at : ThiefAt) → ThiefKnows top end a at → Sees top b at
Sees-fresh top end b a ThiefAt.resting k = tt
Sees-fresh top end b a (steal_bottom t) k = tt
Sees-fresh top end b a (steal_read t b') k = λ h. absurd (omega (arith, k.0, h))
Sees-fresh top end b a (steal_race t b' x) k = λ h. absurd (omega (arith, k.0, h))

-- The task in front of the end.
last_counted :
    (s : System) (x b : ℕ)
    → s.top ≤ b
    → count_from x s.array s.top (b + 1 - s.top)
      ≡ count_from x s.array s.top (b - s.top) + one_if (s.array b) x
last_counted s x b h =
    ap (count_from x s.array s.top) (omega (arith, h))
    ∙ count_from-last x s.array s.top (b - s.top)
    ∙ ap (λ i. count_from x s.array s.top (b - s.top) + one_if (s.array i) x) (omega (arith, h))

-- The task at the top.
pub first_counted :
    (s : System) (x end : ℕ)
    → s.top < end
    → count_from x s.array s.top (end - s.top)
      ≡ one_if (s.array s.top) x + count_from x s.array (s.top + 1) (end - (s.top + 1))
first_counted s x end h =
    ap (count_from x s.array s.top) (omega (arith, h))
    ∙ count_from-first x s.array s.top (end - (s.top + 1))
    ∙ ap (λ i. one_if (s.array s.top) x + count_from x s.array i (end - (s.top + 1))) (omega arith)

pub call_push-Inv :
    (task : ℕ) (s : System)
    → Inv OwnerAt.resting s
    → Inv (push_top task s.bottom) (call_push task s)
unfolding call_push
call_push-Inv task s h = record {
  inside = h.inside;
  ordered = h.ordered;
  owner_knows = refl;
  thief_knows = h.thief_knows;
  balanced = h.balanced;
}

pub call_pop-Inv :
    (s : System) → Inv OwnerAt.resting s → Inv (pop_down (sub32 s.bottom 1)) (call_pop s)
unfolding call_pop
call_pop-Inv s h = record {
  inside = h.inside;
  ordered = h.ordered;
  owner_knows = ((λ pos. omega (arith, pos, h.inside)), λ zero. omega (arith, zero));
  thief_knows = h.thief_knows;
  balanced = h.balanced;
}

module _ (s : System) where
  load_top :
      (task b : ℕ)
      → Inv (push_top task b) s
      → Inv (push_write task b s.top) (record s { owner = push_write task b s.top })
  load_top task b h = record {
    inside = h.inside;
    ordered = h.ordered;
    owner_knows = h.owner_knows;
    thief_knows = h.thief_knows;
    balanced = h.balanced;
  }

  gives_up :
      (task b t : ℕ)
      → Inv (push_write task b t) s
      → Inv OwnerAt.resting (record s { owner = OwnerAt.resting })
  gives_up task b t h = record {
    inside = h.inside;
    ordered = h.ordered;
    owner_knows = tt;
    thief_knows = h.thief_knows;
    balanced = h.balanced;
  }

  writes :
      (task b t : ℕ)
      → Inv (push_write task b t) s
      → Inv (push_end task b) (record s { array = store b task s.array; owner = push_end task b })
  writes task b t h = record {
    inside = h.inside;
    ordered = h.ordered;
    owner_knows = (h.owner_knows, store_self b task s.array);
    thief_knows = λ i.
        ThiefKnows-grow s.top s.bottom s.bottom s.array _ (s.thief i) (omega arith)
          (λ j lt. store_ne b task j s.array (omega (arith, lt, h.owner_knows))) (h.thief_knows i);
    balanced = λ x.
        ap (λ n. count x s.taken + n)
          (count_from-store x s.array s.top (s.bottom - s.top) b task
            (omega (arith, h.ordered, h.owner_knows)))
        ∙ h.balanced x;
  }

  pushed :
      (task b : ℕ)
      → Inv (push_end task b) s
      → add32 b 1 < work_queue_size
      → Inv OwnerAt.resting
          (record s { bottom = add32 b 1; owner = OwnerAt.resting; pushed = task ∷ s.pushed })
  pushed task b h room = record {
    inside = room;
    ordered = omega (arith, h.ordered, next);
    owner_knows = tt;
    thief_knows = λ i.
        ThiefKnows-grow s.top s.bottom (add32 b 1) s.array s.array (s.thief i) (omega (arith, next))
          (λ j lt. refl) (h.thief_knows i);
    balanced =
        λ x. rw next (omega (arith, last_counted s x s.bottom h.ordered, h.balanced x, same x));
  }
    where
      next : add32 b 1 ≡ s.bottom + 1
      next = omega (arith, h.inside, h.owner_knows.0)

      same : (x : ℕ) → one_if (s.array s.bottom) x ≡ one_if task x
      same x = ap (λ y. one_if y x) (ap s.array (sym h.owner_knows.0) ∙ h.owner_knows.1)

  lowers :
      (b : ℕ)
      → Inv (pop_down b) s
      → b < work_queue_size
      → Inv (pop_top b) (record s { bottom = b; owner = pop_top b })
  lowers b h room = record {
    inside = room;
    ordered = rw next h.ordered;
    owner_knows = refl;
    thief_knows = λ i. rw next (h.thief_knows i);
    balanced = rw next h.balanced;
  }
    where
      next : b + 1 ≡ s.bottom
      next = ground (arith, h.owner_knows, room)

  loads :
      (b : ℕ) → Inv (pop_top b) s → Inv (pop_read b s.top) (record s { owner = pop_read b s.top })
  loads b h = record {
    inside = h.inside;
    ordered = h.ordered;
    owner_knows = (
      h.owner_knows,
      omega arith,
      (λ lt. omega (arith, lt)),
      λ i. Sees-fresh s.top (s.bottom + 1) b s.array (s.thief i) (h.thief_knows i),
    );
    thief_knows = h.thief_knows;
    balanced = h.balanced;
  }

  finds_none : (b t : ℕ) → Inv (pop_read b t) s → Inv (pop_none b) (record s { owner = pop_none b })
  finds_none b t h = record {
    inside = h.inside;
    ordered = h.ordered;
    owner_knows = h.owner_knows.0;
    thief_knows = h.thief_knows;
    balanced = h.balanced;
  }

  finds_last :
      (b t : ℕ)
      → t ≡ b
      → Inv (pop_read b t) s
      → Inv (pop_race b t (s.array b)) (record s { owner = pop_race b t (s.array b) })
  finds_last b t last h = record {
    inside = h.inside;
    ordered = h.ordered;
    owner_knows = (h.owner_knows.0, last, refl);
    thief_knows = h.thief_knows;
    balanced = h.balanced;
  }

  takes :
      (b t : ℕ)
      → t < b
      → Inv (pop_read b t) s
      → Inv OwnerAt.resting (record s { owner = OwnerAt.resting; taken = s.array b ∷ s.taken })
  takes b t more h = record {
    inside = h.inside;
    ordered = omega (arith, below);
    owner_knows = tt;
    thief_knows = λ i.
        ThiefKnows-shrink s.top s.bottom t s.array (s.thief i) h.owner_knows.1
          (omega (arith, more, h.owner_knows.0)) (rw (← h.owner_knows.0) (h.owner_knows.3 i))
          (h.thief_knows i);
    balanced = λ x. omega (arith, last_counted s x s.bottom below, h.balanced x, same x);
  }
    where
      below : s.top ≤ s.bottom
      below = omega (arith, h.owner_knows.2 more, h.owner_knows.0)

      same : (x : ℕ) → one_if (s.array s.bottom) x ≡ one_if (s.array b) x
      same x = ap (λ y. one_if (s.array y) x) (sym h.owner_knows.0)

  wins :
      (b t x : ℕ)
      → s.top ≡ t
      → Inv (pop_race b t x) s
      → Inv (pop_last b x) (record s { top = add32 t 1; owner = pop_last b x; taken = x ∷ s.taken })
  wins b t x won h = record {
    inside = h.inside;
    ordered = omega (arith, next, here);
    owner_knows = h.owner_knows.0;
    thief_knows = λ i.
        ThiefKnows-pass s.top (add32 t 1) (s.bottom + 1) (s.bottom + 1) s.array (s.thief i)
          (omega (arith, next)) (h.thief_knows i);
    balanced = λ y. rw next (
        omega
          (arith, first_counted s y (s.bottom + 1) (omega (arith, here)), h.balanced y, same y));
  }
    where
      here : s.top ≡ s.bottom
      here = omega (arith, won, h.owner_knows.0, h.owner_knows.1)

      next : add32 t 1 ≡ s.top + 1
      next = omega (arith, won, here, h.inside)

      same : (y : ℕ) → one_if (s.array s.top) y ≡ one_if x y
      same y =
          ap (λ z. one_if z y) (ap s.array (omega (arith, here, h.owner_knows.0)) ∙ h.owner_knows.2)

  loses :
      (b t x : ℕ)
      → Inv (pop_race b t x) s
      → Inv (pop_last b null) (record s { owner = pop_last b null })
  loses b t x h = record {
    inside = h.inside;
    ordered = h.ordered;
    owner_knows = h.owner_knows.0;
    thief_knows = h.thief_knows;
    balanced = h.balanced;
  }

  restores :
      (at : OwnerAt) (b : ℕ)
      → end_at at s.bottom ≡ s.bottom + 1
      → b ≡ s.bottom
      → Inv at s
      → add32 b 1 < work_queue_size
      → Inv OwnerAt.resting (record s { bottom = add32 b 1; owner = OwnerAt.resting })
  restores at b behind at_bottom h room = record {
    inside = room;
    ordered = rw next h.ordered;
    owner_knows = tt;
    thief_knows = λ i. rw next (h.thief_knows i);
    balanced = rw next h.balanced;
  }
    where
      next : add32 b 1 ≡ end_at at s.bottom
      next = omega (arith, behind, at_bottom, h.inside)

  pub owner_from-Inv :
      (at : OwnerAt)
      → s.owner ≡ at
      → Inv at s
      → (owner_from at s).bottom < work_queue_size
      → Inv (owner_from at s).owner (owner_from at s)
  unfolding owner_from
  owner_from-Inv OwnerAt.resting e h room = subst (λ at. Inv at s) (sym e) h
  owner_from-Inv (push_top task b) e h room = load_top task b h
  owner_from-Inv (push_write task b t) e h room =
      elim (Bool-cases (leb (sub32 b t) (work_queue_size - 1))) [
        | inl fits ↦ rw fits (writes task b t h)
        | inr full ↦ rw full (gives_up task b t h)
      ]
  owner_from-Inv (push_end task b) e h room = pushed task b h room
  owner_from-Inv (pop_down b) e h room = lowers b h room
  owner_from-Inv (pop_top b) e h room = loads b h
  owner_from-Inv (pop_read b t) e h room = elim (Bool-cases (leb t b)) [
    | inr none_left ↦ rw none_left (finds_none b t h)
    | inl some_left ↦ elim (Bool-cases (t == b)) [
      | inl last ↦ rw (some_left, last) (finds_last b t ((==_iff t b).0 last) h)
      | inr more ↦ rw (some_left, more) (takes b t (ground arith) h)
    ]
  ]
  owner_from-Inv (pop_race b t x) e h room = elim (Bool-cases (s.top == t)) [
    | inl won ↦ rw won (wins b t x ((==_iff s.top t).0 won) h)
    | inr lost ↦ rw lost (loses b t x h)
  ]
  owner_from-Inv (pop_last b x) e h room = restores (pop_last b x) b refl h.owner_knows h room
  owner_from-Inv (pop_none b) e h room = restores (pop_none b) b refl h.owner_knows h room
