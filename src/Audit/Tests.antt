-- ===== src/Audit/Tests.antt =====
-- The theorems of the audit buffer and of the delivery, on a queue that is a list and a capacity.
use holonomy_source.Common.{
  ℕ, String, ◌≡◌, ◌≤◌, ◌⊎◌, true, refl, Option, none, some, List, [], ◌∷◌, ◌++◌, length, arith, ltb,
  if◌then◌else◌, ◌==◌,
}
use holonomy_source.Audit.{
  written, printed, handle, send, enrich, license_status, drain, drain_loop, ArrayQueue, QueueLaws,
  Delivery, deliver, AuditBroadcaster, stdout, run_turn,
}
use holonomy_source.Audit.Turn.{Handled, run_turn_lem}
use holonomy_source.Audit.Buffer.{IsBounded, push_all, push_all_lem}
use holonomy_source.Audit.Broadcast.{Ended, deliver_lem}

record Fifo : Type 0 where
  held : List ℕ
  room : ℕ

abbrev fifo_push : Fifo → ℕ → Option Fifo
fifo_push x e =
    if ltb (length x.held) x.room
    then some (record { held = x.held ++ e ∷ []; room = x.room })
    else none

abbrev fifo_pop : Fifo → Option (ℕ × Fifo)
fifo_pop x = elim x.held [ [] ↦ none | e ∷ es ↦ some (e, record { held = es; room = x.room }) ]

abbrev fifo : ArrayQueue ℕ
fifo = record {
  Queue = Fifo;
  new = λ n. record { held = []; room = n };
  push = fifo_push;
  pop = fifo_pop;
  len = λ x. length x.held;
  events = λ x. x.held;
  capacity = λ x. x.room;
}

fifo_laws : QueueLaws fifo
fifo_laws = record {
  events-new = λ n. refl;
  capacity-new = λ n. refl;
  push_room =
      λ x e h. (record { held = x.held ++ e ∷ []; room = x.room }, ground (arith, h), refl, refl);
  push_full = λ x e h. ground (arith, h);
  pop_empty = λ x h. rw h refl;
  pop_oldest = λ x e es h. (record { held = es; room = x.room }, rw h refl, refl, refl);
  len_lem = λ x. refl;
}

abbrev two : Fifo
two = record { held = 1 ∷ 2 ∷ []; room = 2 }

two-IsBounded : IsBounded fifo fifo_laws two
two-IsBounded = (omega arith, omega arith)

push_all_lem_example :
    (y : Fifo) × (push_all fifo fifo_laws two (3 ∷ 4 ∷ 5 ∷ []) ≡ some y) × (y.held ≡ 4 ∷ 5 ∷ [])
push_all_lem_example = push_all_lem fifo fifo_laws two (3 ∷ 4 ∷ 5 ∷ []) two-IsBounded

-- The second retry succeeds.
deliver_lem_example :
    (d : Delivery) × (deliver (λ k. k == 2) 5 ≡ some d) × Ended (λ k. k == 2) 5 0 100 [] d
deliver_lem_example = deliver_lem (λ k. k == 2) 5

abbrev console : AuditBroadcaster
console = record { sink = stdout; batch_size = 10; flush_interval = 1000; max_retries = 3 }

abbrev shown : List (ℕ × String) → Option String
shown [] = some "none"
shown ((e, status) ∷ batch) = some status

run_turn_lem_example :
    (batch : List ℕ) × (batch ++ (run_turn fifo shown console true (λ k. true) written two).1.held
      ≡ 1 ∷ 2 ∷ [])
    × ((length batch ≤ 1) ⊎ (length batch ≤ 10))
    × Handled fifo fifo_laws shown console true
        (λ k. true)
        written
        (1 ∷ 2 ∷ [])
        batch
        (printed "AUDIT EVENT BATCH: VALID")
unfolding run_turn handle send enrich license_status drain drain_loop
run_turn_lem_example = run_turn_lem fifo fifo_laws shown console true (λ k. true) written two
