-- ===== src/Write/Channel/Task.antt =====
-- holonomy-core/src/manager/write_orchestrator.rs with crypto/pme_encrypt.rs: from the bytes that the
-- Parquet writer writes to the parts of the object.
use mathlib.Core.List.{append-nil}
use holonomy_source.Common.{
  ℕ, ◌≤◌, ◌<◌, ◌≡◌, refl, sym, ap, ◌∙◌, subst, map, String, Bool, true, false, List, [], ◌∷◌, ◌++◌,
  length, concat, concat-append, All, arith, Bool-cases, ◌⊎◌, inl, inr,
}
use holonomy_source.Common.Result.{Result, ok, err}
use holonomy_source.Upload.{
  StreamItem, data_item, success, CompletedPart, over, Upload, start, Reach, conclude,
  complete_multipart_upload,
}
use holonomy_source.Upload.Complete.{AnswersFrom, conclude_lem}
use holonomy_source.Write.Channel.{
  ChannelWriter, blocking_send, flush, write_all, items_of, write_task,
}
use holonomy_source.Write.Channel.Bytes.{HasSize, IsIntact, Outcome, write_all_lem}

-- All chunks have the size, but the last, which may be shorter.
abbrev pub IsChunked : ℕ → List (List ℕ) → Type 0
IsChunked size [] = Unit
IsChunked size (chunk ∷ []) = length chunk ≤ size
IsChunked size (chunk ∷ next ∷ chunks) = (length chunk ≡ size) × IsChunked size (next ∷ chunks)

IsChunked-append :
    (size : ℕ) (chunks : List (List ℕ)) (last : List ℕ)
    → All (HasSize size) chunks
    → length last ≤ size
    → IsChunked size (chunks ++ last ∷ [])
IsChunked-append size [] last a h = h
IsChunked-append size (c ∷ []) last a h = (a.0, h)
IsChunked-append size (c ∷ d ∷ chunks) last a h =
    (a.0, IsChunked-append size (d ∷ chunks) last a.1 h)

All-IsChunked :
    (size : ℕ) (chunks : List (List ℕ)) → All (HasSize size) chunks → IsChunked size chunks
All-IsChunked size [] a = tt
All-IsChunked size (c ∷ []) a = omega (arith, a.0)
All-IsChunked size (c ∷ d ∷ chunks) a = (a.0, All-IsChunked size (d ∷ chunks) a.1)

-- A signal of success stands behind chunks alone.
no_signal :
    (xs ys : List (List ℕ)) (rest : List StreamItem)
    → map data_item ys ≡ map data_item xs ++ success ∷ rest
    → ⊥
no_signal [] [] rest e = cc
no_signal [] (y ∷ ys) rest e = cc
no_signal (x ∷ xs) [] rest e = cc
no_signal (x ∷ xs) (y ∷ ys) rest e = no_signal xs ys rest (cc)

same_chunks :
    (xs ys : List (List ℕ)) (rest : List StreamItem)
    → map data_item ys ++ success ∷ [] ≡ map data_item xs ++ success ∷ rest
    → ys ≡ xs
same_chunks [] [] rest e = refl
same_chunks [] (y ∷ ys) rest e = cc
same_chunks (x ∷ xs) [] rest e = cc
same_chunks (x ∷ xs) (y ∷ ys) rest e =
    let tails : ys ≡ xs = same_chunks xs ys rest (cc) in cc (tails, e)

module _ (is_open : ℕ → Bool) where
  -- All bytes are sent, or the receiver is gone.
  abbrev Sent : ℕ → List ℕ → List (List ℕ) → Type 0
  Sent size written tx = ((concat tx ≡ written) × IsChunked size tx) ⊎ (is_open (length tx) ≡ false)

  flush_lem :
      (size : ℕ) (written : List ℕ) (w : ChannelWriter)
      → IsIntact size written w
      → length w.buffer < size
      → Sent size written (flush is_open w).0.tx
  unfolding flush blocking_send
  flush_lem size written w i h = go w.buffer refl
    where
      go : (b : List ℕ) → w.buffer ≡ b → Sent size written (flush is_open w).0.tx
      go [] e =
          let same : (flush is_open w).0.tx ≡ w.tx = ground (arith, e) in
          let all : concat w.tx ≡ written = sym (i.kept ∙ rw (e, append-nil) refl) in
          subst (Sent size written) (sym same) (inl (all, All-IsChunked size w.tx i.chunks))
      go (b ∷ bs) e = elim (Bool-cases (is_open (length w.tx))) [
        | inl here ↦
            let more : (flush is_open w).0.tx ≡ w.tx ++ (b ∷ bs) ∷ [] =
              ground (arith, e, here, i.sound) in
            let all : concat (w.tx ++ (b ∷ bs) ∷ []) ≡ written =
              rw (concat-append w.tx ((b ∷ bs) ∷ []), append-nil (b ∷ bs))
                (sym (i.kept ∙ rw e refl)) in
            subst (Sent size written) (sym more) (
              inl
                (all, IsChunked-append size w.tx (b ∷ bs) i.chunks (omega (arith, h, ap length e))))
        | inr gone ↦
            let same : (flush is_open w).0.tx ≡ w.tx = ground (arith, e, gone, i.sound) in
            subst (Sent size written) (sym same) (inr gone)
      ]

  -- A receiver that is gone gets no signal.
  items_gone :
      (w : ChannelWriter) (result : Result String (Unit {0})) (chunks : List (List ℕ))
      (rest : List StreamItem)
      → is_open (length w.tx) ≡ false
      → items_of is_open w result ≡ map data_item chunks ++ success ∷ rest
      → ⊥
  unfolding items_of
  items_gone w (err e) chunks rest gone h = no_signal chunks w.tx rest h
  items_gone w (ok done) chunks rest gone h =
      let none_sent : items_of is_open w (ok done) ≡ map data_item w.tx =
        rw (gone, items_of) (append-nil (map data_item w.tx)) in
      no_signal chunks w.tx rest (sym none_sent ∙ h)

  -- A stream that ends with the signal of success.
  task_items :
      (size : ℕ) (written : List ℕ) (w : ChannelWriter) (result : Result String (Unit {0}))
      (chunks : List (List ℕ)) (rest : List StreamItem)
      → (result ≡ ok tt → Sent size written w.tx)
      → items_of is_open w result ≡ map data_item chunks ++ success ∷ rest
      → (concat chunks ≡ written) × IsChunked size chunks × (result ≡ ok tt)
  unfolding items_of
  task_items size written w (err e) chunks rest s h = absurd (no_signal chunks w.tx rest h)
  task_items size written w (ok done) chunks rest s h = elim (s refl) [
    | inr gone ↦ absurd (items_gone w (ok done) chunks rest gone h)
    | inl (all, chunked) ↦ elim (Bool-cases (is_open (length w.tx))) [
      | inr gone ↦ absurd (items_gone w (ok done) chunks rest gone h)
      | inl here ↦
          let same : w.tx ≡ chunks = same_chunks chunks w.tx rest (rw here at h) in
          subst
            (λ c.
              (concat c ≡ written)
              × IsChunked size c
              × (◌≡◌ {A = Result String (Unit {0})} (ok done) (ok tt)))
            same (all, chunked, refl)
    ]
  ]

  -- The result of the task, from those of its writes and of the writer itself.
  write_task_lem :
      (size : ℕ) (bufs : List (List ℕ)) (closing : Result String (Unit {0}))
      (chunks : List (List ℕ)) (rest : List StreamItem)
      → 0 < size
      → (write_task is_open size bufs closing).0 ≡ map data_item chunks ++ success ∷ rest
      → (concat chunks ≡ concat bufs)
        × IsChunked size chunks
        × ((write_task is_open size bufs closing).1 ≡ ok tt)
  unfolding write_task Outcome
  write_task_lem size bufs closing chunks rest p h =
      task_items size (concat bufs) _ _ chunks rest
        (λ done.
          elim (write_all_lem is_open size [] bufs
            (record { buffer = []; chunk_size = size; tx = []; has_failed = false }) p p
            (record { sized = refl; sound = refl; kept = refl; chunks = tt })) [
              | inl (fine, intact, small) ↦ flush_lem size (concat bufs) _ intact small
              | inr (gone, broken, closed) ↦ absurd (ground (arith, gone, done))
            ])
        h

  -- For a chunk size above 0: when the upload of a write reports success, on any run of its steps,
  -- the parts of the completed object are, in the order of their numbers from 1 on, the answers to
  -- chunks that are, one after the other, exactly the bytes that the Parquet writer wrote; all
  -- chunks but the last have the chunk size, and the last no more; and the write task has
  -- succeeded.
  pub write_task_stored :
      (Answers : ℕ → List ℕ → CompletedPart → Type 0)
      (completed : List CompletedPart → Result String (Unit {0})) (size : ℕ) (bufs : List (List ℕ))
      (closing : Result String (Unit {0})) {u : Upload}
      → 0 < size
      → Reach Answers (start (write_task is_open size bufs closing).0) u
      → u.phase ≡ over
      → (conclude completed u).1 ≡ ok tt
      → (chunks : List (List ℕ)) × (parts : List CompletedPart) × (concat chunks ≡ concat bufs)
        × IsChunked size chunks
        × AnswersFrom Answers 1 chunks parts
        × ((conclude completed u).0 ≡ complete_multipart_upload parts ∷ [])
        × ((write_task is_open size bufs closing).1 ≡ ok tt)
  write_task_stored Answers completed size bufs closing p r o h =
      let (chunks, rest, parts, split, answered, requests, done) =
        conclude_lem Answers completed (write_task is_open size bufs closing).0 r o h in
      let (bytes, chunked, fine) = write_task_lem size bufs closing chunks rest p split in
      (chunks, parts, bytes, chunked, answered, requests, fine)

  -- For a chunk size above 0: if the receiver stays and the Parquet writer does not fail by itself,
  -- the write task succeeds and its stream ends with the signal of success.
  pub write_task_succeeds :
      (size : ℕ) (bufs : List (List ℕ))
      → 0 < size
      → ((n : ℕ) → is_open n ≡ true)
      → (chunks : List (List ℕ)) × ((write_task is_open size bufs (ok tt)).0
          ≡ map data_item chunks ++ success ∷ [])
        × ((write_task is_open size bufs (ok tt)).1 ≡ ok tt)
  unfolding write_task items_of Outcome
  write_task_succeeds size bufs p stays =
      let new : ChannelWriter = record {
        buffer = [];
        chunk_size = size;
        tx = [];
        has_failed = false;
      } in
      elim (write_all_lem is_open size [] bufs new p p
        (record { sized = refl; sound = refl; kept = refl; chunks = tt })) [
          | inl (fine, intact, small) ↦
              let after = (flush is_open (write_all is_open bufs new).0).0 in
              (after.tx, ground (arith, fine, stays (length after.tx)), ground (arith, fine))
          | inr (gone, broken, (n, closed)) ↦ absurd (cc (stays n, closed))
        ]
