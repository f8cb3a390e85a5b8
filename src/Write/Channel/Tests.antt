-- ===== src/Write/Channel/Tests.antt =====
-- The sink with chunks of two bytes, and an upload of what it has sent.
use holonomy_source.Common.{
  ℕ, ◌≡◌, ◌≢◌, refl, Bool, true, String, none, List, [], ◌∷◌, ◌++◌, map, concat, arith, ltb,
}
use holonomy_source.Common.Result.{Result, ok, err}
use holonomy_source.Upload.{
  data_item, success, CompletedPart, looping, over, Upload, start, stored, acquire, receive, signal,
  answer, join, drained, Reach, here, next, conclude, complete_multipart_upload, finish,
}
use holonomy_source.Upload.Complete.{AnswersFrom}
use holonomy_source.Write.Channel.{
  write_task, write_all, write, write_loop, flush, blocking_send, items_of,
}
use holonomy_source.Write.Channel.Task.{IsChunked, write_task_stored, write_task_succeeds}

-- A receiver that stays, and one that is gone after a chunk.
abbrev open_always : ℕ → Bool
open_always n = true

abbrev open_once : ℕ → Bool
open_once n = ltb n 1

chunked :
    (write_task open_always 2 ((1 ∷ 2 ∷ 3 ∷ []) ∷ (4 ∷ 5 ∷ []) ∷ []) (ok tt)).0
    ≡ data_item (1 ∷ 2 ∷ []) ∷ data_item (3 ∷ 4 ∷ []) ∷ data_item (5 ∷ []) ∷ success ∷ []
unfolding write_task write_all write write_loop flush blocking_send items_of
chunked = refl

cut_off :
    write_task open_once 2 ((1 ∷ 2 ∷ 3 ∷ []) ∷ (4 ∷ 5 ∷ []) ∷ []) (ok tt)
    ≡ (data_item (1 ∷ 2 ∷ []) ∷ [], err "Channel closed")
unfolding write_task write_all write write_loop flush blocking_send items_of
cut_off = refl

abbrev part : CompletedPart
part = record { e_tag = "tag"; part_number = 1; checksum_crc32 = none }

abbrev Stored : ℕ → List ℕ → CompletedPart → Type 0
Stored n body p = p ≡ part

abbrev accepted : List CompletedPart → Result String (Unit {0})
accepted parts = ok tt

looping-ne-over : looping ≢ over
looping-ne-over e = cc

abbrev stored_one :
    (u : Upload) × Reach Stored (start (write_task open_always 2 ((7 ∷ []) ∷ []) (ok tt)).0) u
unfolding write_task write_all write write_loop flush blocking_send items_of
stored_one = (
  _,
  next
      (next
        (next
          (next
            (next
              (next (next here (acquire 7 refl refl refl refl))
                (receive (7 ∷ []) (success ∷ []) refl refl refl refl))
              (answer 1 (7 ∷ []) [] [] (ok part) refl (stored part refl) refl))
            (join 1 part [] [] looping-ne-over refl refl))
          (acquire 7 refl refl refl refl))
        (signal [] refl refl refl refl))
      (drained refl refl refl refl),
)

write_task_stored_example :
    (chunks : List (List ℕ)) × (parts : List CompletedPart) × (concat chunks ≡ 7 ∷ [])
    × IsChunked 2 chunks
    × AnswersFrom Stored 1 chunks parts
    × ((conclude accepted stored_one.0).0 ≡ complete_multipart_upload parts ∷ [])
    × ((write_task open_always 2 ((7 ∷ []) ∷ []) (ok tt)).1 ≡ ok tt)
unfolding write_task write_all write write_loop flush blocking_send items_of conclude finish
write_task_stored_example =
    write_task_stored open_always Stored accepted 2 ((7 ∷ []) ∷ []) (ok tt) (omega arith)
      stored_one.1 refl refl

write_task_succeeds_example :
    (chunks : List (List ℕ)) × ((write_task open_always 2 ((7 ∷ []) ∷ []) (ok tt)).0
      ≡ map data_item chunks ++ success ∷ [])
    × ((write_task open_always 2 ((7 ∷ []) ∷ []) (ok tt)).1 ≡ ok tt)
write_task_succeeds_example =
    write_task_succeeds open_always 2 ((7 ∷ []) ∷ []) (omega arith) (λ n. refl)
