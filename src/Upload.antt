-- ===== src/Upload.antt =====
-- holonomy-core/src/crypto/pme_encrypt.rs: `S3MultipartUploader::upload_stream`, which uploads the
-- chunks of a stream as the parts of one object. Its tasks run at the same time, so that it is a
-- relation of steps: a turn of `tokio::select!`, or an answer of the object store. The answers are
-- those of the relation `Answers`; an error of a request, or a panic of a task, is a text.
pub mod Sorting
pub mod Parts
pub mod Complete
pub mod Progress
mod Tests
use holonomy_source.Common.{
  ℕ, suc, ◌+◌, ◌≤◌, ◌≡◌, ◌≢◌, String, Bool, true, false, Option, none, some, List, [], ◌∷◌, ◌++◌,
  map, leb, if◌then◌else◌,
}
use holonomy_source.Common.Result.{Result, ok, err, ◌>>=◌}

pub data StreamItem : Type 0 where
  data_item : List ℕ → StreamItem
  success : StreamItem

pub record CompletedPart : Type 0 where
  pub e_tag : String
  pub part_number : ℕ
  pub checksum_crc32 : Option String

-- Where `upload_stream` stands: in its loop, in the loop that waits for the tasks, or behind both.
pub data Phase : Type 0 where
  looping draining over : Phase

-- The variables of `upload_stream`, with the items that the channel has still to deliver, and the
-- tasks of the join set: those that run, by part number and body, and those that have ended.
pub record Upload : Type 0 where
  pub rx : List StreamItem
  pub permits : ℕ
  pub permit_opt : Bool
  pub part_number : ℕ
  pub running : List (ℕ × List ℕ)
  pub ended : List (ℕ × Result String CompletedPart)
  pub completed_parts_with_index : List (ℕ × CompletedPart)
  pub success_signal_received : Bool
  pub upload_error : Option String
  pub phase : Phase

-- The state before the loop, with a semaphore of eight permits.
abbrev pub start : List StreamItem → Upload
start items = record {
  rx = items;
  permits = 8;
  permit_opt = false;
  part_number = 1;
  running = [];
  ended = [];
  completed_parts_with_index = [];
  success_signal_received = false;
  upload_error = none;
  phase = looping;
}

-- The answers of the object store to part `n` with a body.
module _ (Answers : ℕ → List ℕ → CompletedPart → Type 0) where
  -- A task has ended: its part was stored, or its request failed, or it panicked.
  pub data Ends (n : ℕ) (body : List ℕ) : Result String CompletedPart → Type 0 where
    stored : (part : CompletedPart) → Answers n body part → Ends n body (ok part)
    failed : (e : String) → Ends n body (err e)

  pub data Step (u v : Upload) : Type 0 where
    -- `semaphore.clone().acquire_owned()`
    acquire :
        (n : ℕ)
        → u.phase ≡ looping
        → u.permit_opt ≡ false
        → u.permits ≡ suc n
        → v ≡ record u { permits = n; permit_opt = true }
        → Step u v
    -- `Some(StreamItem::Data(chunk))`: the part goes to a task, with the permit.
    receive :
        (chunk : List ℕ) (items : List StreamItem)
        → u.phase ≡ looping
        → u.permit_opt ≡ true
        → u.rx ≡ data_item chunk ∷ items
        → v ≡ record u {
          rx = items;
          permit_opt = false;
          part_number = u.part_number + 1;
          running = (u.part_number, chunk) ∷ u.running;
        }
        → Step u v
    -- `Some(StreamItem::Success)`
    signal :
        (items : List StreamItem)
        → u.phase ≡ looping
        → u.permit_opt ≡ true
        → u.rx ≡ success ∷ items
        → v ≡ record u { rx = items; success_signal_received = true; phase = draining }
        → Step u v
    -- `None`: all senders are gone.
    closed :
        u.phase ≡ looping
        → u.permit_opt ≡ true
        → u.rx ≡ []
        → v ≡ record u { phase = draining }
        → Step u v
    -- A task of the join set ends and drops its permit.
    answer :
        (n : ℕ) (body : List ℕ) (before after : List (ℕ × List ℕ)) (r : Result String CompletedPart)
        → u.running ≡ before ++ (n, body) ∷ after
        → Ends n body r
        → v ≡ record u {
          permits = u.permits + 1;
          running = before ++ after;
          ended = (n, r) ∷ u.ended;
        }
        → Step u v
    -- `join_next` of the one or the other loop: a task that has stored its part.
    join :
        (n : ℕ) (part : CompletedPart) (before after : List (ℕ × Result String CompletedPart))
        → u.phase ≢ over
        → u.ended ≡ before ++ (n, ok part) ∷ after
        → v ≡ record u {
          ended = before ++ after;
          completed_parts_with_index = u.completed_parts_with_index ++ (n, part) ∷ [];
        }
        → Step u v
    -- `join_next`: a task that has failed ends both loops.
    join_failed :
        (n : ℕ) (e : String) (before after : List (ℕ × Result String CompletedPart))
        → u.phase ≢ over
        → u.ended ≡ before ++ (n, err e) ∷ after
        → v ≡ record u { ended = before ++ after; upload_error = some e; phase = over }
        → Step u v
    -- `join_next` of the second loop, when no task is left.
    drained :
        u.phase ≡ draining
        → u.running ≡ []
        → u.ended ≡ []
        → v ≡ record u { phase = over }
        → Step u v

  pub data Reach (u : Upload) : Upload → Type 0 where
    here : Reach u u
    next : {v w : Upload} → Reach u v → Step v w → Reach u w

-- One step of the stable sort by part number.
unfoldable pub place : ℕ × CompletedPart → List (ℕ × CompletedPart) → List (ℕ × CompletedPart)
place x [] = x ∷ []
place x (y ∷ ys) = if leb x.0 y.0 then x ∷ y ∷ ys else y ∷ place x ys

-- `completed_parts_with_index.sort_by_key(|(num, _)| *num)`
unfoldable pub sort : List (ℕ × CompletedPart) → List (ℕ × CompletedPart)
sort [] = []
sort (x ∷ xs) = place x (sort xs)

-- Behind the loops: the error, or the parts of the request that completes the upload.
unfoldable pub finish : Upload → Result String (List CompletedPart)
finish u = elim u.upload_error [
  | some e ↦ err e
  | none ↦
      if u.success_signal_received
      then ok (map (λ p. p.1) (sort u.completed_parts_with_index))
      else err "Upload aborted due to missing success signal from stream"
]

pub data Request : Type 0 where
  complete_multipart_upload : List CompletedPart → Request
  abort_multipart_upload : Request

-- The end of `upload_stream`, with the requests that it sends: `completed` answers the completion.
-- The guard aborts the upload unless the completion has succeeded.
unfoldable pub conclude :
    (List CompletedPart → Result String (Unit {0}))
    → Upload
    → List Request × Result String (Unit {0})
conclude completed u = elim (finish u) [
  | err e ↦ (abort_multipart_upload ∷ [], err e)
  | ok parts ↦ elim (completed parts) [
    | err e ↦ (complete_multipart_upload parts ∷ abort_multipart_upload ∷ [], err e)
    | ok done ↦ (complete_multipart_upload parts ∷ [], ok done)
  ]
]
