-- ===== src/Audit.antt =====
-- holonomy-core/src/audit/ring_buffer.rs and audit/broadcaster.rs: the bounded buffer of audit
-- events that drops the oldest, and the task that drains it in batches and posts them with retries.
-- crossbeam's `ArrayQueue` is the parameter `ArrayQueue`, with its laws in `QueueLaws`.
mod Newest
pub mod Buffer
pub mod Broadcast
pub mod Turn
mod Tests
use holonomy_source.Common.{
  ℕ, zero, suc, ◌+◌, ◌*◌, ◌≤◌, ◌<◌, String, ◌≡◌, Bool, true, false, Option, none, some, List, [],
  ◌∷◌, ◌++◌, length, ltb, leb, if◌then◌else◌, ◌<>◌,
}

pub data Action : Type 0 where
  read write shred : Action

pub record AuditEvent : Type 0 where
  pub timestamp : ℕ
  pub user_hash : String
  pub file_signature : String
  pub accessed_columns : Option (List String)
  pub business_purpose : String
  pub action : Action

-- `ArrayQueue<E>`: `push` returns the new queue, or the event when the queue is full.
pub record ArrayQueue (E : Type 0) : Type 1 where
  pub Queue : Type 0
  pub new : ℕ → Queue
  pub push : Queue → E → Option Queue
  pub pop : Queue → Option (E × Queue)
  pub len : Queue → ℕ
  -- The events, the oldest first, and the capacity: they are not operations, the laws speak of them.
  pub events : Queue → List E
  pub capacity : Queue → ℕ

-- A bounded queue, first in, first out.
pub record QueueLaws {E : Type 0} (q : ArrayQueue E) : Type 0 where
  pub events-new : (n : ℕ) → q.events (q.new n) ≡ []
  pub capacity-new : (n : ℕ) → q.capacity (q.new n) ≡ n
  pub push_room :
      (x : q.Queue) (e : E)
      → length (q.events x) < q.capacity x
      → (y : q.Queue) × (q.push x e ≡ some y)
        × (q.events y ≡ q.events x ++ e ∷ [])
        × (q.capacity y ≡ q.capacity x)
  pub push_full : (x : q.Queue) (e : E) → q.capacity x ≤ length (q.events x) → q.push x e ≡ none
  pub pop_empty : (x : q.Queue) → q.events x ≡ [] → q.pop x ≡ none
  pub pop_oldest :
      (x : q.Queue) (e : E) (es : List E)
      → q.events x ≡ e ∷ es
      → (y : q.Queue) × (q.pop x ≡ some (e, y)) × (q.events y ≡ es) × (q.capacity y ≡ q.capacity x)
  pub len_lem : (x : q.Queue) → q.len x ≡ length (q.events x)

module _ {E : Type 0} (q : ArrayQueue E) where
  open q use {Queue}

  -- The queue after `let _ = self.queue.pop()`.
  unfoldable pub drop_oldest : Queue → Queue
  drop_oldest x = elim (q.pop x) [ none ↦ x | some (_, y) ↦ y ]

  -- The loop of `AuditRingBuffer::push`, where no other thread pushes in between: `none` when the
  -- fuel runs out.
  unfoldable pub push_loop : ℕ → Queue → E → Option Queue
  push_loop zero x event = none
  push_loop (suc fuel) x event = elim (q.push x event) [
    | some y ↦ some y
    | none ↦ push_loop fuel (drop_oldest x) event
  ]

  -- `AuditRingBuffer::push`: two turns are enough where no other thread pushes in between.
  unfoldable pub push : Queue → E → Option Queue
  push x event = push_loop 2 x event

  -- `while let Some(event) = self.buffer.pop() { batch.push(event); if batch.len() >= size { break } }`
  unfoldable pub drain_loop : ℕ → ℕ → List E → Queue → List E × Queue
  drain_loop zero size batch x = (batch, x)
  drain_loop (suc fuel) size batch x = elim (q.pop x) [
    | none ↦ (batch, x)
    | some (event, y) ↦ elim (leb size (length (batch ++ event ∷ []))) [
      | true ↦ (batch ++ event ∷ [], y)
      | false ↦ drain_loop fuel size (batch ++ event ∷ []) y
    ]
  ]

  -- The drain of one round; one more turn than there are events is enough fuel.
  unfoldable pub drain : ℕ → Queue → List E × Queue
  drain size x = drain_loop (suc (q.len x)) size [] x

-- How the delivery of a batch ended: with a success or dropped, after how many requests, and how
-- long the task slept between them.
pub record Delivery : Type 0 where
  pub delivered : Bool
  pub requests : ℕ
  pub slept : List ℕ

-- The loop of the delivery. `success` tells of each request, by its number, whether the response is
-- a success; `retries` is the counter and `backoff` the next pause, in milliseconds.
unfoldable pub deliver_loop : (ℕ → Bool) → ℕ → ℕ → ℕ → ℕ → List ℕ → Option Delivery
deliver_loop success max_retries zero retries backoff slept = none
deliver_loop success max_retries (suc fuel) retries backoff slept = elim (success retries) [
  | true ↦ some (record { delivered = true; requests = retries + 1; slept = slept })
  | false ↦ elim (ltb max_retries (retries + 1)) [
    | true ↦ some (record { delivered = false; requests = retries + 1; slept = slept })
    | false ↦
        deliver_loop success max_retries fuel (retries + 1) (backoff * 2) (slept ++ backoff ∷ [])
  ]
]

-- The delivery of one batch; `max_retries + 1` turns are enough.
unfoldable pub deliver : (ℕ → Bool) → ℕ → Option Delivery
deliver success max_retries = deliver_loop success max_retries (suc max_retries) 0 100 []

pub data SinkConfig : Type 0 where
  stdout : SinkConfig
  local_file : String → SinkConfig
  saas : String → Option String → SinkConfig

-- `AuditBroadcaster`, without the buffer, which is the state of `run`. The interval is in
-- milliseconds.
pub record AuditBroadcaster : Type 0 where
  pub sink : SinkConfig
  pub batch_size : ℕ
  pub flush_interval : ℕ
  pub max_retries : ℕ

-- What the file system says to the sink of a local file: the text is written, or the file cannot be
-- opened, or it cannot be written, with the text of the error.
pub data FileAnswer : Type 0 where
  written : FileAnswer
  open_failed write_failed : String → FileAnswer

-- What one turn of the loop of `run` does to the outside.
pub data Effect : Type 0 where
  -- A pause, of so many milliseconds.
  sleep : ℕ → Effect
  -- A line on the standard error: the batch could not be serialized.
  unserialized : Effect
  -- A line on the standard output, or a text that is appended to a file.
  printed : String → Effect
  appended : String → String → Effect
  -- The file could not be opened, or the write of the batch failed: a line on the standard error
  -- says so.
  not_opened not_written : String → String → Effect
  -- The batch posted to an endpoint, with a bearer token or none.
  posted : String → Option String → String → Delivery → Effect
  -- The delivery has run out of fuel.
  stuck : Effect

-- `if is_license_valid() { "VALID" } else { "UNLICENSED" }`
unfoldable pub license_status : Bool → String
license_status true = "VALID"
license_status false = "UNLICENSED"

-- `batch.iter().map(|event| EnrichedAuditEvent { event, license_status })`
unfoldable pub enrich : {E : Type 0} → String → List E → List (E × String)
enrich status [] = []
enrich status (event ∷ batch) = (event, status) ∷ enrich status batch

-- The file of a sink, with the text that goes to it.
unfoldable pub append_text : FileAnswer → String → String → Effect
append_text written path text = appended path text
append_text (open_failed e) path text = not_opened path ("Failed to open local audit file: " <> e)
append_text (write_failed e) path text =
    not_written path ("Failed to write to local audit file: " <> e)

-- The match on the sink, with a body.
unfoldable pub send : AuditBroadcaster → (ℕ → Bool) → FileAnswer → String → Effect
send b success file body = elim b.sink [
  | stdout ↦ printed ("AUDIT EVENT BATCH: " <> body)
  | local_file path ↦ append_text file path (body <> "\n")
  | saas endpoint token ↦ elim (deliver success b.max_retries) [
    | none ↦ stuck
    | some d ↦ posted endpoint token body d
  ]
]

module _ {E : Type 0} (q : ArrayQueue E) (to_string : List (E × String) → Option String) where
  -- What a turn does with the batch that it has drained.
  unfoldable pub handle : AuditBroadcaster → Bool → (ℕ → Bool) → FileAnswer → List E → Effect
  handle b licensed success file [] = sleep b.flush_interval
  handle b licensed success file (event ∷ batch) =
      elim (to_string (enrich (license_status licensed) (event ∷ batch))) [
        | none ↦ unserialized
        | some body ↦ send b success file body
      ]

  -- One turn of the loop of `AuditBroadcaster::run`: what it does, and the buffer after it. Events
  -- that other tasks push while it runs are pushes between two turns.
  unfoldable pub run_turn :
      AuditBroadcaster → Bool → (ℕ → Bool) → FileAnswer → q.Queue → Effect × q.Queue
  run_turn b licensed success file x =
      let (batch, y) = drain q b.batch_size x in (handle b licensed success file batch, y)
