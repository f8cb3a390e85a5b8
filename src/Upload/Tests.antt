-- ===== src/Upload/Tests.antt =====
-- Uploads of two chunks, in a store that answers with the number of the part.
use holonomy_source.Common.{
  ℕ, ◌≤◌, ◌<◌, ◌≡◌, ◌≢◌, refl, ◌⊎◌, true, String, none, List, [], ◌∷◌, ◌++◌, map, length,
}
use holonomy_source.Common.Result.{Result, ok}
use holonomy_source.Upload.{
  StreamItem, data_item, success, CompletedPart, looping, over, Upload, start, stored, Step,
  acquire, receive, signal, answer, join, drained, Reach, here, next, conclude,
  complete_multipart_upload, place, sort, finish,
}
use holonomy_source.Upload.Complete.{AnswersFrom, conclude_lem}
use holonomy_source.Upload.Progress.{remaining, upload_ends, Reach-running_le}

abbrev part : ℕ → CompletedPart
part n = record { e_tag = "tag"; part_number = n; checksum_crc32 = none }

abbrev Stored : ℕ → List ℕ → CompletedPart → Type 0
Stored n body p = p ≡ part n

abbrev items : List StreamItem
items = data_item (7 ∷ []) ∷ data_item (8 ∷ []) ∷ success ∷ []

abbrev accepted : List CompletedPart → Result String (Unit {0})
accepted parts = ok tt

looping-ne-over : looping ≢ over
looping-ne-over e = cc

-- The second part is stored, and joined, before the first.
abbrev received : (u : Upload) × Reach Stored (start items) u
received = (
  _,
  next
      (next
        (next (next here (acquire 7 refl refl refl refl)) (receive (7 ∷ []) _ refl refl refl refl))
        (acquire 6 refl refl refl refl))
      (receive (8 ∷ []) _ refl refl refl refl),
)

abbrev stored_both : (u : Upload) × Reach Stored (start items) u
stored_both = (
  _,
  next
      (next
        (next
          (next received.1 (answer 2 (8 ∷ []) [] _ (ok (part 2)) refl (stored (part 2) refl) refl))
          (join 2 (part 2) [] [] looping-ne-over refl refl))
        (answer 1 (7 ∷ []) [] [] (ok (part 1)) refl (stored (part 1) refl) refl))
      (join 1 (part 1) [] [] looping-ne-over refl refl),
)

abbrev finished : (u : Upload) × Reach Stored (start items) u
finished = (
  _,
  next (next (next stored_both.1 (acquire 7 refl refl refl refl)) (signal [] refl refl refl refl))
      (drained refl refl refl refl),
)

conclude_lem_example :
    (chunks : List (List ℕ)) × (rest : List StreamItem) × (parts : List CompletedPart) × (items
      ≡ map data_item chunks ++ success ∷ rest)
    × AnswersFrom Stored 1 chunks parts
    × ((conclude accepted finished.0).0 ≡ complete_multipart_upload parts ∷ [])
    × (accepted parts ≡ ok tt)
unfolding conclude finish
conclude_lem_example = conclude_lem Stored accepted items finished.1 refl refl

upload_ends_example :
    ((received.0.phase ≡ over) ⊎ ((v : Upload) × Step Stored received.0 v))
    × ((v : Upload) → Step Stored received.0 v → remaining v < remaining received.0)
upload_ends_example = upload_ends Stored items received.1

Reach-running_le_example : (2 ≤ 8) × (received.0.permit_opt ≡ true → length received.0.running < 8)
Reach-running_le_example = Reach-running_le Stored items received.1

-- The parts stand in the order of their numbers, whatever the order in which they were stored.
in_order : (conclude accepted finished.0).0 ≡ complete_multipart_upload (part 1 ∷ part 2 ∷ []) ∷ []
unfolding conclude finish sort place
in_order = refl
