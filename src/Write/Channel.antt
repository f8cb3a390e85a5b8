-- ===== src/Write/Channel.antt =====
-- holonomy-core/src/manager/write_orchestrator.rs: `ChannelWriter`, the sink of the Parquet writer,
-- which cuts the bytes that it is given into chunks and sends them to the upload. The channel is the
-- list of the chunks sent and a test that tells, by their number, whether the receiver is still
-- there; since a send that fails adds nothing, a receiver that is gone stays gone.
mod Bytes
pub mod Task
mod Tests
use holonomy_source.Common.{
  ℕ, zero, suc, ◌+◌, ◌≡◌, String, Bool, true, false, List, [], ◌∷◌, ◌++◌, length, leb, take, drop,
  map, if◌then◌else◌,
}
use holonomy_source.Common.Result.{Result, ok, err}
use holonomy_source.Upload.{StreamItem, data_item, success}

pub record ChannelWriter : Type 0 where
  pub buffer : List ℕ
  pub chunk_size : ℕ
  pub tx : List (List ℕ)
  pub has_failed : Bool

module _ (is_open : ℕ → Bool) where
  -- `self.tx.blocking_send(StreamItem::Data(chunk))`, with the flag that a failure sets.
  unfoldable pub blocking_send : List ℕ → ChannelWriter → ChannelWriter × Result String (Unit {0})
  blocking_send chunk w =
      if is_open (length w.tx)
      then (record w { tx = w.tx ++ chunk ∷ [] }, ok tt)
      else (record w { has_failed = true }, err "Channel closed")

  -- The loop of `write`.
  unfoldable pub write_loop : ℕ → ChannelWriter → ChannelWriter × Result String (Unit {0})
  write_loop zero w = (w, ok tt)
  write_loop (suc fuel) w = elim (leb w.chunk_size (length w.buffer)) [
    | false ↦ (w, ok tt)
    | true ↦
        let sent =
          blocking_send (take w.chunk_size w.buffer)
            (record w { buffer = drop w.chunk_size w.buffer }) in
        elim sent.1 [ err e ↦ (sent.0, err e) | ok done ↦ write_loop fuel sent.0 ]
  ]

  -- `write`, for a chunk size above 0: one turn more than there are bytes is enough.
  unfoldable pub write : List ℕ → ChannelWriter → ChannelWriter × Result String ℕ
  write buf w =
      let (after, r) =
        write_loop (suc (length (w.buffer ++ buf))) (record w { buffer = w.buffer ++ buf }) in
      (after, elim r [ err e ↦ err e | ok done ↦ ok (length buf) ])

  -- `flush`, which `drop` calls too.
  unfoldable pub flush : ChannelWriter → ChannelWriter × Result String (Unit {0})
  flush w = elim w.buffer [
    | [] ↦ (w, ok tt)
    | b ∷ bs ↦
        if w.has_failed then (w, ok tt) else blocking_send (b ∷ bs) (record w { buffer = [] })
  ]

  -- The writes that the Parquet writer makes: the first that fails is the last.
  unfoldable pub write_all :
      List (List ℕ) → ChannelWriter → ChannelWriter × Result String (Unit {0})
  write_all [] w = (w, ok tt)
  write_all (buf ∷ bufs) w =
      let wrote = write buf w in
      elim wrote.1 [ err e ↦ (wrote.0, err e) | ok n ↦ write_all bufs wrote.0 ]

  -- The items on the channel when the task has ended: the chunks and, if the writer has given no
  -- error and the receiver is still there, the signal of success.
  unfoldable pub items_of : ChannelWriter → Result String (Unit {0}) → List StreamItem
  items_of w (err e) = map data_item w.tx
  items_of w (ok done) = map data_item w.tx ++ (if is_open (length w.tx) then success ∷ [] else [])

  -- The blocking task of `write`: the Parquet writer makes the writes `bufs` and may then fail by
  -- itself. The sink is flushed when it is dropped, whatever has happened.
  unfoldable pub write_task :
      ℕ → List (List ℕ) → Result String (Unit {0}) → List StreamItem × Result String (Unit {0})
  write_task chunk_size bufs closing =
      let wrote =
        write_all bufs
          (record { buffer = []; chunk_size = chunk_size; tx = []; has_failed = false }) in
      let result : Result String (Unit {0}) = elim wrote.1 [ err e ↦ err e | ok done ↦ closing ] in
      (items_of (flush wrote.0).0 result, result)
