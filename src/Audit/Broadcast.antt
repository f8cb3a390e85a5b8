-- ===== src/Audit/Broadcast.antt =====
-- holonomy-core/src/audit/broadcaster.rs: the drain of the buffer into a batch, and the retries of
-- the delivery of a batch.
use holonomy_source.Common.{
  ℕ, zero, suc, ◌+◌, ◌-◌, ◌*◌, ◌≤◌, ◌<◌, ◌≡◌, refl, inl, inr, Bool, true, false, some, List, [],
  ◌∷◌, ◌++◌, length, length-append, arith, ltb, leb, Bool-cases, ap, ◌==◌, ◌∙◌, sym, ◌⊎◌,
}
use holonomy_source.Audit.Newest.{append_one, append_nil}
use holonomy_source.Audit.{
  ArrayQueue, QueueLaws, drain_loop, drain, Delivery, deliver_loop, deliver,
}

module _ {E : Type 0} (q : ArrayQueue E) (laws : QueueLaws q) where
  open q use {Queue, events}

  -- What one drain makes of what the queue held: the batch is its oldest part, in order, and what
  -- stays is the rest; the batch is full or the queue is empty.
  abbrev pub Drained : ℕ → List E → List E × Queue → Type 0
  Drained size held r =
      (r.0 ++ events r.1 ≡ held)
      × ((size ≤ length r.0) ⊎ (events r.1 ≡ []))
      × ((length r.0 ≤ 1) ⊎ (length r.0 ≤ size))
      × ((0 < length r.0) ⊎ (events r.1 ≡ []))

  drain_loop_empty :
      (fuel size : ℕ) (batch : List E) (x : Queue)
      → events x ≡ []
      → (length batch ≡ 0) ⊎ (length batch < size)
      → Drained size (batch ++ events x) (drain_loop q (suc fuel) size batch x)
  unfolding drain_loop
  drain_loop_empty fuel size batch x e r =
      rw (laws.pop_empty x e, drain_loop) (refl, inr e, ground arith, inr e)

  drain_loop_event :
      (fuel size : ℕ) (batch : List E) (x y : Queue) (d : E)
      → q.pop x ≡ some (d, y)
      → events x ≡ d ∷ events y
      → (length batch ≡ 0) ⊎ (length batch < size)
      → ((length (batch ++ d ∷ []) < size)
          → Drained size
              ((batch ++ d ∷ []) ++ events y)
              (drain_loop q fuel size (batch ++ d ∷ []) y))
      → Drained size (batch ++ events x) (drain_loop q (suc fuel) size batch x)
  unfolding drain_loop
  drain_loop_event fuel size batch x y d p e r rest =
      elim (Bool-cases (leb size (length (batch ++ d ∷ [])))) [
        | inl t ↦
            rw (e, p, drain_loop, t)
              (
                append_one batch d (events y),
                inl (ground arith),
                ground (arith, length-append batch (d ∷ [])),
                inl (omega (arith, length-append batch (d ∷ []))),
              )
        | inr f ↦
            rw (e, p, drain_loop, f, sym (append_one batch d (events y))) (rest (ground arith))
      ]

  drain_loop_lem :
      (fuel size : ℕ) (batch : List E) (x : Queue)
      → length (events x) < fuel
      → (length batch ≡ 0) ⊎ (length batch < size)
      → Drained size (batch ++ events x) (drain_loop q fuel size batch x)
  drain_loop_lem zero size batch x h r = ground arith
  drain_loop_lem (suc fuel) size batch x h r =
      go (events x) refl (λ y b. drain_loop_lem fuel size b y)
    where
      Rest : Type 0
      Rest =
          (y : Queue) (b : List E)
          → length (events y) < fuel
          → (length b ≡ 0) ⊎ (length b < size)
          → Drained size (b ++ events y) (drain_loop q fuel size b y)

      Goal : Type 0
      Goal = Drained size (batch ++ events x) (drain_loop q (suc fuel) size batch x)

      popped :
          (d : E) (es : List E)
          → events x ≡ d ∷ es
          → (y : Queue) × (q.pop x ≡ some (d, y)) × (events y ≡ es) × (q.capacity y ≡ q.capacity x)
          → Rest
          → Goal
      popped d es e (y, p, s, c) rest =
          drain_loop_event fuel size batch x y d p (e ∙ ap (λ l. d ∷ l) (sym s)) r
            (λ k. rest y (batch ++ d ∷ []) (omega (arith, h, ap length e, ap length s)) (inr k))

      go : (l : List E) → events x ≡ l → Rest → Goal
      go [] e rest = drain_loop_empty fuel size batch x e r
      go (d ∷ es) e rest = popped d es e (laws.pop_oldest x d es e) rest

  -- By the laws of the queue: a drain takes the oldest events, in order, and leaves the others as
  -- they were; it stops when the batch is full or the buffer is empty, takes no more than a batch
  -- holds, one event for a batch size of 0, and takes something unless the buffer is empty.
  pub drain_lem : (size : ℕ) (x : Queue) → Drained size (events x) (drain q size x)
  unfolding drain
  drain_lem size x =
      drain_loop_lem (suc (q.len x)) size [] x (omega (arith, laws.len_lem x)) (inl refl)

-- The pauses of a delivery: each twice as long as the one before.
abbrev pub pauses : ℕ → ℕ → List ℕ
pauses backoff zero = []
pauses backoff (suc n) = backoff ∷ pauses (backoff * 2) n

module _ (success : ℕ → Bool) (max_retries : ℕ) where
  -- A delivery that began with the request `first`.
  abbrev pub Ended : ℕ → ℕ → List ℕ → Delivery → Type 0
  Ended first backoff slept d =
      (first < d.requests)
      × (d.requests ≤ suc max_retries)
      × ((k : ℕ) → first ≤ k → suc k < d.requests → success k ≡ false)
      × (success (d.requests - 1) ≡ d.delivered)
      × ((d.delivered ≡ true) ⊎ (d.requests ≡ suc max_retries))
      × (d.slept ≡ slept ++ pauses backoff (d.requests - 1 - first))

  abbrev pub Ends : ℕ → ℕ → ℕ → List ℕ → Type 0
  Ends fuel first backoff slept =
      (d : Delivery) × (deliver_loop success max_retries fuel first backoff slept ≡ some d)
      × Ended first backoff slept d

  -- The request succeeds, or it fails and was the last one.
  deliver_stops :
      (fuel first backoff : ℕ) (slept : List ℕ) (b : Bool)
      → success first ≡ b
      → first ≤ max_retries
      → (b ≡ true) ⊎ (max_retries < suc first)
      → Ends (suc fuel) first backoff slept
  unfolding deliver_loop
  deliver_stops fuel first backoff slept b e h stop = (
    record { delivered = b; requests = first + 1; slept = slept },
    ground (arith, e),
    (
      omega arith,
      omega (arith, h),
      λ k l u. ground (arith, l, u),
      ground (arith, e),
      ground (arith, h),
      sym (append_nil slept) ∙ ap (λ n. slept ++ pauses backoff n) zero_left,
    ),
  )
    where
      zero_left : 0 ≡ first + 1 - 1 - first
      zero_left = omega arith

  -- The request fails and another one follows.
  deliver_goes_on :
      (fuel first backoff : ℕ) (slept : List ℕ)
      → success first ≡ false
      → suc first ≤ max_retries
      → Ends fuel (suc first) (backoff * 2) (slept ++ backoff ∷ [])
      → Ends (suc fuel) first backoff slept
  unfolding deliver_loop
  deliver_goes_on fuel first backoff slept e h (d, p, (l, u, failed, final, why, pause)) = (
    d,
    ground (arith, e, h, p),
    (
      omega (arith, l),
      u,
      λ k lo hi. elim (Bool-cases (k == first)) [
        | inl t ↦ ground (arith, t, e)
        | inr f ↦ failed k (ground (arith, f, lo)) hi
      ],
      final,
      why,
      pause
          ∙ append_one slept backoff (pauses (backoff * 2) (d.requests - 1 - suc first))
          ∙ ap (λ n. slept ++ pauses backoff n) more,
    ),
  )
    where
      more : suc (d.requests - 1 - suc first) ≡ d.requests - 1 - first
      more = omega (arith, l)

  deliver_loop_lem :
      (fuel first backoff : ℕ) (slept : List ℕ)
      → max_retries < fuel + first
      → first ≤ max_retries
      → Ends fuel first backoff slept
  deliver_loop_lem zero first backoff slept h b = ground arith
  deliver_loop_lem (suc fuel) first backoff slept h b = elim (Bool-cases (success first)) [
    | inl t ↦ deliver_stops fuel first backoff slept true t b (inl refl)
    | inr f ↦ elim (Bool-cases (ltb max_retries (suc first))) [
      | inl t ↦ deliver_stops fuel first backoff slept false f b (inr (ground arith))
      | inr g ↦ deliver_goes_on fuel first backoff slept f (ground arith) (
          deliver_loop_lem fuel (suc first) (backoff * 2) (slept ++ backoff ∷ []) (omega (arith, h))
            (ground arith))
    ]
  ]

  -- The delivery of a batch ends after at most one request more than `max_retries`: it stops at the
  -- first success and reports it, every request before the last one failed, a batch is dropped only
  -- after all the requests, and the pauses are 100 ms, then twice as long each time.
  pub deliver_lem : (d : Delivery) × (deliver success max_retries ≡ some d) × Ended 0 100 [] d
  unfolding deliver
  deliver_lem = deliver_loop_lem (suc max_retries) 0 100 [] (omega arith) (omega arith)
