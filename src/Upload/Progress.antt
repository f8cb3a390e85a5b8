-- ===== src/Upload/Progress.antt =====
-- holonomy-core/src/crypto/pme_encrypt.rs: an upload comes to an end, and no more than eight parts
-- are on the way.
use holonomy_source.Common.{
  ℕ, suc, zero, ◌+◌, ◌*◌, ◌≤◌, ◌<◌, ◌≡◌, ◌≢◌, refl, ap, String, true, false, List, [], ◌∷◌, length,
  length-append, arith, if◌then◌else◌, Bool-cases, ◌⊎◌, inl, inr,
}
use holonomy_source.Common.Result.{Result, ok, err}
use holonomy_source.Upload.{
  StreamItem, data_item, success, CompletedPart, Phase, looping, draining, over, Upload, start,
  failed, Step, acquire, receive, signal, closed, answer, join, join_failed, drained, Reach,
}
use holonomy_source.Upload.Parts.{IsAccounted, Reach-IsAccounted}

-- What is left to do: it falls with every step.
pub remaining : Upload → ℕ
remaining u =
    5 * length u.rx
    + (if u.permit_opt then 0 else 1)
    + 2 * length u.running
    + length u.ended
    + (elim u.phase [ looping ↦ 2 | draining ↦ 1 | over ↦ 0 ])

module _ (Answers : ℕ → List ℕ → CompletedPart → Type 0) where
  Step-lt : {u v : Upload} → Step Answers u v → remaining v < remaining u
  unfolding remaining
  Step-lt (acquire n p o e f) = rw f (ground arith)
  Step-lt (receive chunk rest p o e f) = rw f (ground (arith, ap length e))
  Step-lt (signal rest p o e f) = rw f (ground (arith, ap length e))
  Step-lt (closed p o e f) = rw f (ground arith)
  Step-lt {u} (answer n body before after r e ends f) = rw f (
      omega
        (arith, ap length e, length-append before after, length-append before ((n, body) ∷ after)))
  Step-lt {u} (join n part before after p e f) = rw f (
      omega (
        arith,
        ap length e,
        length-append before after,
        length-append before ((n, ok part) ∷ after),
      ))
  Step-lt {u} (join_failed n error before after p e f) = rw f (
      ground (
        arith,
        ap length e,
        length-append before after,
        length-append before ((n, err error) ∷ after),
      ))
  Step-lt (drained p e g f) = rw f (ground arith)

  join_step :
      (u : Upload) (n : ℕ) (r : Result String CompletedPart)
      (rest : List (ℕ × Result String CompletedPart))
      → u.phase ≢ over
      → u.ended ≡ (n, r) ∷ rest
      → (v : Upload) × Step Answers u v
  join_step u n (ok part) rest p e = (_, join n part [] rest p e refl)
  join_step u n (err error) rest p e = (_, join_failed n error [] rest p e refl)

  receive_step :
      (u : Upload) (rx : List StreamItem)
      → u.phase ≡ looping
      → u.permit_opt ≡ true
      → u.rx ≡ rx
      → (v : Upload) × Step Answers u v
  receive_step u [] p o e = (_, closed p o e refl)
  receive_step u (data_item chunk ∷ rest) p o e = (_, receive chunk rest p o e refl)
  receive_step u (success ∷ rest) p o e = (_, signal rest p o e refl)

  acquire_step :
      (u : Upload) (permits : ℕ)
      → u.phase ≡ looping
      → u.permit_opt ≡ false
      → u.permits ≡ permits
      → 0 < permits
      → (v : Upload) × Step Answers u v
  acquire_step u zero p o e h = absurd (omega arith)
  acquire_step u (suc n) p o e h = (_, acquire n p o e refl)

  -- Without a task, a step of the loop itself can be made.
  idle_step :
      {items : List StreamItem} {chunks : List (List ℕ)} (u : Upload) (phase : Phase)
      → IsAccounted Answers items chunks u
      → u.phase ≡ phase
      → phase ≢ over
      → u.running ≡ []
      → u.ended ≡ []
      → (v : Upload) × Step Answers u v
  idle_step u over a p q r e = absurd (q refl)
  idle_step u draining a p q r e = (_, drained p r e refl)
  idle_step u looping a p q r e = elim (Bool-cases u.permit_opt) [
    | inl o ↦ receive_step u u.rx p o refl
    | inr o ↦ acquire_step u u.permits p o refl (ground (arith, o, a.permitted, ap length r))
  ]

  can_step :
      {items : List StreamItem} {chunks : List (List ℕ)} (u : Upload) (running : List (ℕ × List ℕ))
      (ended : List (ℕ × Result String CompletedPart))
      → IsAccounted Answers items chunks u
      → u.phase ≢ over
      → u.running ≡ running
      → u.ended ≡ ended
      → (v : Upload) × Step Answers u v
  can_step u running ((n, r) ∷ rest) a p e f = join_step u n r rest p f
  can_step u ((n, body) ∷ rest) [] a p e f = (_, answer n body [] rest (err "") e (failed "") refl)
  can_step u [] [] a p e f = idle_step u u.phase a refl p e f

  phase_cases : (phase : Phase) → (phase ≡ over) ⊎ (phase ≢ over)
  phase_cases over = inl refl
  phase_cases looping = inr λ e. cc
  phase_cases draining = inr λ e. cc

  -- No run of an upload is stuck: every state of it is behind the loops or has a next step; and
  -- every step lowers a number, so that a run has no more steps than that number at its start.
  pub upload_ends :
      (items : List StreamItem) {u : Upload}
      → Reach Answers (start items) u
      → ((u.phase ≡ over) ⊎ ((v : Upload) × Step Answers u v))
        × ((v : Upload) → Step Answers u v → remaining v < remaining u)
  upload_ends items {u} r =
      let (chunks, a) = Reach-IsAccounted Answers r in
      let next : (u.phase ≡ over) ⊎ ((v : Upload) × Step Answers u v) = elim (phase_cases u.phase) [
        | inl ended ↦ inl ended
        | inr p ↦ inr (can_step u u.running u.ended a p refl refl)
      ] in
      (next, λ v s. Step-lt s)

  -- In every state of an upload at most eight parts are on the way, and at most seven while a
  -- permit is held for the next.
  pub Reach-running_le :
      (items : List StreamItem) {u : Upload}
      → Reach Answers (start items) u
      → (length u.running ≤ 8) × (u.permit_opt ≡ true → length u.running < 8)
  Reach-running_le items {u} r =
      let (chunks, a) = Reach-IsAccounted Answers r in
      (ground (arith, a.permitted), λ o. ground (arith, o, a.permitted))
