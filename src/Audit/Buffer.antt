-- ===== src/Audit/Buffer.antt =====
-- holonomy-core/src/audit/ring_buffer.rs: pushes into the bounded buffer, over the laws of the queue.
use holonomy_source.Common.{
  ℕ, suc, ◌≤◌, ◌<◌, ◌≡◌, refl, inl, inr, true, false, Option, none, some, List, [], ◌∷◌, ◌++◌,
  length, length-append, arith, ltb, Bool-cases, if◌then◌else◌, ap, ◌∙◌, sym,
}
use holonomy_source.Audit.Newest.{tail, last, last_short, append_nil, last-tail}
use holonomy_source.Audit.{ArrayQueue, QueueLaws, drop_oldest, push_loop, push}

module _ {E : Type 0} (q : ArrayQueue E) (laws : QueueLaws q) where
  open q use {Queue, events, capacity}

  -- The queue holds at most as many events as its capacity, which is not zero.
  abbrev pub IsBounded : Queue → Type 0
  IsBounded x = (0 < capacity x) × (length (events x) ≤ capacity x)

  -- What the buffer holds after one push.
  abbrev pub Pushed : Queue → E → Queue → Type 0
  Pushed x e y =
      (events y
        ≡ (if ltb (length (events x)) (capacity x) then events x else tail (events x)) ++ e ∷ [])
      × (capacity y ≡ capacity x)

  push_loop_room :
      (fuel : ℕ) (x : Queue) (e : E)
      → length (events x) < capacity x
      → (y : Queue) × (push_loop q (suc fuel) x e ≡ some y)
        × (events y ≡ events x ++ e ∷ [])
        × (capacity y ≡ capacity x)
  unfolding push_loop
  push_loop_room fuel x e h = go (laws.push_room x e h)
    where
      go :
          (y : Queue) × (q.push x e ≡ some y)
            × (events y ≡ events x ++ e ∷ [])
            × (capacity y ≡ capacity x)
          → (y : Queue) × (push_loop q (suc fuel) x e ≡ some y)
            × (events y ≡ events x ++ e ∷ [])
            × (capacity y ≡ capacity x)
      go (y, p, r, t) = (y, rw (p, push_loop) refl, r, t)

  drop_oldest_lem :
      (x : Queue) (e : E) (es : List E)
      → events x ≡ e ∷ es
      → (events (drop_oldest q x) ≡ es) × (capacity (drop_oldest q x) ≡ capacity x)
  unfolding drop_oldest
  drop_oldest_lem x e es h = go (laws.pop_oldest x e es h)
    where
      go :
          (y : Queue) × (q.pop x ≡ some (e, y)) × (events y ≡ es) × (capacity y ≡ capacity x)
          → (events (drop_oldest q x) ≡ es) × (capacity (drop_oldest q x) ≡ capacity x)
      go (y, p, s, c) = rw (p, drop_oldest) (s, c)

  push_loop_full :
      (fuel : ℕ) (x : Queue) (e : E)
      → capacity x ≤ length (events x)
      → push_loop q (suc fuel) x e ≡ push_loop q fuel (drop_oldest q x) e
  unfolding push_loop
  push_loop_full fuel x e h = rw (laws.push_full x e h, push_loop) refl

  push_full_queue :
      (x : Queue) (e d : E) (es : List E)
      → events x ≡ d ∷ es
      → length (events x) ≡ capacity x
      → (y : Queue) × (push q x e ≡ some y) × (events y ≡ es ++ e ∷ []) × (capacity y ≡ capacity x)
  unfolding push
  push_full_queue x e d es h full = go (
      push_loop_room 0 (drop_oldest q x) e
        (omega (arith, full, ap length (dropped.0), ap length h, dropped.1)))
    where
      dropped : (events (drop_oldest q x) ≡ es) × (capacity (drop_oldest q x) ≡ capacity x)
      dropped = drop_oldest_lem x d es h

      go :
          (y : Queue) × (push_loop q 1 (drop_oldest q x) e ≡ some y)
            × (events y ≡ events (drop_oldest q x) ++ e ∷ [])
            × (capacity y ≡ capacity (drop_oldest q x))
          → (y : Queue) × (push_loop q 2 x e ≡ some y)
            × (events y ≡ es ++ e ∷ [])
            × (capacity y ≡ capacity x)
      go (y, p, r, t) = (
        y,
        push_loop_full 1 x e (omega (arith, full)) ∙ p,
        r ∙ ap (λ l. l ++ e ∷ []) (dropped.0),
        t ∙ dropped.1,
      )

  non_empty : (x : Queue) → 0 < length (events x) → (d : E) × (es : List E) × (events x ≡ d ∷ es)
  non_empty x h = go (events x) refl
    where
      none_left : events x ≡ [] → ⊥
      none_left e = omega (arith, ap length e)

      go : (l : List E) → events x ≡ l → (d : E) × (es : List E) × (events x ≡ d ∷ es)
      go [] e = elim (none_left e) [ ]
      go (d ∷ es) e = (d, es, e)

  -- How a push ends.
  abbrev pub Ends : Queue → E → Type 0
  Ends x e = (y : Queue) × (push q x e ≡ some y) × Pushed x e y × IsBounded y

  push_room_lem :
      (x : Queue) (e : E) → IsBounded x → ltb (length (events x)) (capacity x) ≡ true → Ends x e
  unfolding push
  push_room_lem x e b t = go (push_loop_room 1 x e (ground arith))
    where
      go :
          (y : Queue) × (push_loop q 2 x e ≡ some y)
            × (events y ≡ events x ++ e ∷ [])
            × (capacity y ≡ capacity x)
          → Ends x e
      go (y, p, r, c) = (
        y,
        p,
        (rw (t) r, c),
        (ground (arith, b, c), ground (arith, ap length r, length-append (events x) (e ∷ []), c)),
      )

  push_full_lem :
      (x : Queue) (e d : E) (es : List E)
      → IsBounded x
      → ltb (length (events x)) (capacity x) ≡ false
      → events x ≡ d ∷ es
      → Ends x e
  push_full_lem x e d es b f h = go (push_full_queue x e d es h (ground (arith, b, f)))
    where
      go :
          (y : Queue) × (push q x e ≡ some y)
            × (events y ≡ es ++ e ∷ [])
            × (capacity y ≡ capacity x)
          → Ends x e
      go (y, p, r, c) = (
        y,
        p,
        (rw (f) (r ∙ ap (λ l. tail l ++ e ∷ []) (sym h)), c),
        (
          ground (arith, b, c),
          ground (arith, b, ap length r, ap length h, length-append es (e ∷ []), c),
        ),
      )

  -- By the laws of the queue: a push into a buffer that holds no more than its capacity, which is
  -- above 0, ends with the event as the newest one; a full buffer has lost its oldest event, and
  -- none else; the capacity is kept and not exceeded.
  pub push_lem : (x : Queue) (e : E) → IsBounded x → Ends x e
  push_lem x e b = elim (Bool-cases (ltb (length (events x)) (capacity x))) [
    | inl t ↦ push_room_lem x e b t
    | inr f ↦ full f (non_empty x (ground (arith, b)))
  ]
    where
      full :
          ltb (length (events x)) (capacity x) ≡ false
          → (d : E) × (es : List E) × (events x ≡ d ∷ es)
          → Ends x e
      full f (d, es, h) = push_full_lem x e d es b f h

  -- One push after another.
  abbrev pub push_all : Queue → List E → Option Queue
  push_all x [] = some x
  push_all x (e ∷ es) = elim (push q x e) [ none ↦ none | some y ↦ push_all y es ]

  -- By the laws of the queue: however many events are pushed, one after the other, into a buffer
  -- that holds no more than its capacity, which is above 0, each push ends, and the buffer then
  -- holds the newest of the events, as many as fit, in order.
  pub push_all_lem :
      (x : Queue) (es : List E)
      → IsBounded x
      → (y : Queue) × (push_all x es ≡ some y) × (events y ≡ last (capacity x) (events x ++ es))
  push_all_lem x [] b =
      (x, refl, rw (append_nil (events x)) (sym (last_short (capacity x) (events x) (b.1))))
  push_all_lem x (e ∷ es) b = first (push_lem x e b) (λ y c. push_all_lem y es c)
    where
      Holds : (y : Queue) → Type 0
      Holds y =
          (z : Queue) × (push_all y es ≡ some z) × (events z ≡ last (capacity y) (events y ++ es))

      Goal : Type 0
      Goal =
          (z : Queue) × (push_all x (e ∷ es) ≡ some z)
          × (events z ≡ last (capacity x) (events x ++ e ∷ es))

      rest : (y : Queue) → (push q x e ≡ some y) → Pushed x e y → Holds y → Goal
      rest y p (r, c) (z, t, k) = (
        z,
        rw (p, push_all) t,
        k
            ∙ ap (λ n. last n (events y ++ es)) c
            ∙ ap (λ l. last (capacity x) (l ++ es)) r
            ∙ last-tail (capacity x) (events x) e es (b.0) (b.1),
      )

      first : Ends x e → ((y : Queue) → IsBounded y → Holds y) → Goal
      first (y, p, r, k) f = rest y p r (f y k)
