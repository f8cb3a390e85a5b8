-- ===== src/Audit/Turn.antt =====
-- holonomy-core/src/audit/broadcaster.rs: one turn of the loop of `run`, with each kind of sink.
use holonomy_source.Common.{
  ℕ, ◌≤◌, ◌<◌, ◌≡◌, refl, ◌⊎◌, inl, inr, Bool, true, false, ap, map, Option, none, some, List, [],
  ◌∷◌, ◌++◌, String, ◌<>◌, length, arith, subst,
}
use holonomy_source.Audit.{
  FileAnswer, written, open_failed, write_failed, not_opened, not_written, append_text, ArrayQueue,
  QueueLaws, SinkConfig, stdout, local_file, saas, AuditBroadcaster, Effect, sleep, unserialized,
  printed, appended, posted, Delivery, license_status, enrich, send, handle, run_turn, drain,
}
use holonomy_source.Audit.Broadcast.{Drained, drain_lem, Ended, deliver_lem}

-- A text goes to a file, or the batch is lost.
abbrev pub Stored : FileAnswer → String → String → Effect → Type 0
Stored written path text effect = effect ≡ appended path text
Stored (open_failed e) path text effect =
    effect ≡ not_opened path ("Failed to open local audit file: " <> e)
Stored (write_failed e) path text effect =
    effect ≡ not_written path ("Failed to write to local audit file: " <> e)

-- A body is sent to the sink of the broadcaster; a delivery over the network ends.
abbrev pub Sent : AuditBroadcaster → (ℕ → Bool) → FileAnswer → String → Effect → Type 0
Sent b success file body effect = elim b.sink [
  | stdout ↦ effect ≡ printed ("AUDIT EVENT BATCH: " <> body)
  | local_file path ↦ Stored file path (body <> "\n") effect
  | saas endpoint token ↦
      (d : Delivery) × (effect ≡ posted endpoint token body d)
      × Ended success b.max_retries 0 100 [] d
]

append_text-Stored :
    (file : FileAnswer) (path text : String) → Stored file path text (append_text file path text)
unfolding append_text
append_text-Stored written path text = refl
append_text-Stored (open_failed e) path text = refl
append_text-Stored (write_failed e) path text = refl

send-Sent :
    (b : AuditBroadcaster) (success : ℕ → Bool) (file : FileAnswer) (body : String)
    → Sent b success file body (send b success file body)
unfolding send
send-Sent b success file body = go b.sink
  where
    go :
        (s : SinkConfig)
        → Sent
            (record b { sink = s })
            success
            file
            body
            (send (record b { sink = s }) success file body)
    go stdout = refl
    go (local_file path) = append_text-Stored file path (body <> "\n")
    go (saas endpoint token) =
        let (d, e, ends) = deliver_lem success b.max_retries in (d, rw (e, send) refl, ends)

-- What a turn does with a batch that is serialized, or cannot be.
abbrev pub Acts : AuditBroadcaster → (ℕ → Bool) → FileAnswer → Option String → Effect → Type 0
Acts b success file none effect = effect ≡ unserialized
Acts b success file (some body) effect = Sent b success file body effect

-- The events of a batch, each with the status of the license.
abbrev pub with_status : {E : Type 0} → Bool → List E → List (E × String)
with_status true events = map (λ e. (e, "VALID")) events
with_status false events = map (λ e. (e, "UNLICENSED")) events

enrich-map :
    {E : Type 0} (status : String) (events : List E)
    → enrich status events ≡ map (λ e. (e, status)) events
unfolding enrich
enrich-map status [] = refl
enrich-map status (e ∷ es) = ap (λ l. (e, status) ∷ l) (enrich-map status es)

enrich-with_status :
    {E : Type 0} (licensed : Bool) (events : List E)
    → enrich (license_status licensed) events ≡ with_status licensed events
unfolding license_status
enrich-with_status true events = enrich-map "VALID" events
enrich-with_status false events = enrich-map "UNLICENSED" events

module _ {E : Type 0} (q : ArrayQueue E) (laws : QueueLaws q)
    (to_string : List (E × String) → Option String) where
  open q use {Queue, events}

  -- What a turn does with the batch that it has taken.
  abbrev pub Handled :
      AuditBroadcaster → Bool → (ℕ → Bool) → FileAnswer → List E → List E → Effect → Type 0
  Handled b licensed success file held [] effect = (held ≡ []) × (effect ≡ sleep b.flush_interval)
  Handled b licensed success file held (event ∷ batch) effect =
      Acts b success file (to_string (with_status licensed (event ∷ batch))) effect

  handle-Handled :
      (b : AuditBroadcaster) (licensed : Bool) (success : ℕ → Bool) (file : FileAnswer)
      (batch rest : List E)
      → (0 < length batch) ⊎ (rest ≡ [])
      → Handled b licensed success file
          (batch ++ rest)
          batch
          (handle q to_string b licensed success file batch)
  unfolding handle
  handle-Handled b licensed success file [] rest (inl h) = absurd (omega (arith, h))
  handle-Handled b licensed success file [] rest (inr h) = (h, refl)
  handle-Handled b licensed success file (event ∷ batch) rest h =
      subst
        (λ l.
          Acts b success file (to_string l)
            (handle q to_string b licensed success file (event ∷ batch)))
        (enrich-with_status licensed (event ∷ batch))
        (go (to_string (enrich (license_status licensed) (event ∷ batch))))
    where
      go :
          (o : Option String)
          → Acts b success file o
              (elim o [ none ↦ unserialized | some text ↦ send b success file text ])
      go none = refl
      go (some body) = send-Sent b success file body

  -- By the laws of the queue: a turn of the broadcaster takes a batch from the front of the buffer,
  -- in order, leaves the other events, and sleeps only if there was no event; a batch of more than
  -- one event is no larger than the batch size. A batch that is not empty is serialized whole, each
  -- event with VALID or UNLICENSED by the flag of the license, or else reported; its text is
  -- printed behind a prefix, or appended as a line to the local file (if that cannot be opened or
  -- written, the failure is reported and the turn is over), or posted, with a delivery that ends as
  -- for a single batch.
  pub run_turn_lem :
      (b : AuditBroadcaster) (licensed : Bool) (success : ℕ → Bool) (file : FileAnswer) (x : Queue)
      → (batch : List E) × (batch ++ events (run_turn q to_string b licensed success file x).1
          ≡ events x)
        × ((length batch ≤ 1) ⊎ (length batch ≤ b.batch_size))
        × Handled b licensed success file
            (events x)
            batch
            (run_turn q to_string b licensed success file x).0
  unfolding run_turn
  run_turn_lem b licensed success file x = go (drain_lem q laws b.batch_size x)
    where
      taken : List E × Queue
      taken = drain q b.batch_size x

      go :
          Drained q laws b.batch_size (events x) taken
          → (batch : List E) × (batch ++ events taken.1 ≡ events x)
            × ((length batch ≤ 1) ⊎ (length batch ≤ b.batch_size))
            × Handled b licensed success file
                (events x)
                batch
                (handle q to_string b licensed success file taken.0)
      go (held, full, size, some_taken) = (
        taken.0,
        held,
        size,
        subst
            (λ l.
              Handled b licensed success file l taken.0
                (handle q to_string b licensed success file taken.0))
            held (handle-Handled b licensed success file taken.0 (events taken.1) some_taken),
      )
