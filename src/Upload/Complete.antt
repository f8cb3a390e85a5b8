-- ===== src/Upload/Complete.antt =====
-- holonomy-core/src/crypto/pme_encrypt.rs: what an upload that succeeds has stored.
use mathlib.Core.List.{append_assoc}
use holonomy_source.Common.{
  ℕ, suc, ◌≡◌, ◌∙◌, refl, ap, subst, true, none, some, List, [], ◌∷◌, ◌++◌, map, length,
  length-append, String, arith, All, get_elem?, get_elem?-middle,
}
use holonomy_source.Common.Result.{Result, ok}
use holonomy_source.Upload.{
  StreamItem, data_item, success, CompletedPart, over, Upload, start, Reach, sort, finish,
  complete_multipart_upload, conclude,
}
use holonomy_source.Upload.Sorting.{count, Numbered, sort-Numbered, sort-All}
use holonomy_source.Upload.Parts.{chunk_of, AnswersChunk, Reach-IsAccounted}

module _ (Answers : ℕ → List ℕ → CompletedPart → Type 0) where
  -- Each part is the answer to its chunk, and the chunks have the numbers from `n` on.
  pub AnswersFrom : ℕ → List (List ℕ) → List CompletedPart → Type 0
  AnswersFrom n [] [] = Unit
  AnswersFrom n [] (part ∷ parts) = ⊥
  AnswersFrom n (chunk ∷ chunks) [] = ⊥
  AnswersFrom n (chunk ∷ chunks) (part ∷ parts) =
      Answers n chunk part × AnswersFrom (suc n) chunks parts

  AnswersFrom-sorted :
      (k : ℕ) (before chunks : List (List ℕ)) (parts : List (ℕ × CompletedPart))
      → k ≡ suc (length before)
      → Numbered k parts
      → length parts ≡ length chunks
      → All (AnswersChunk Answers (before ++ chunks)) parts
      → AnswersFrom k chunks (map (λ p. p.1) parts)
  unfolding AnswersFrom
  AnswersFrom-sorted k before [] [] e n l a = tt
  AnswersFrom-sorted k before [] (p ∷ parts) e n l a = absurd (omega (arith, l))
  AnswersFrom-sorted k before (c ∷ chunks) [] e n l a = absurd (omega (arith, l))
  AnswersFrom-sorted k before (c ∷ chunks) ((n, part) ∷ parts) e (here, rest) l
        ((body, stands, h), others) =
      let found : get_elem? (before ++ c ∷ chunks) (length before) ≡ some body =
        subst (λ m. chunk_of (before ++ c ∷ chunks) m ≡ some body) (here ∙ e) stands in
      let same : body ≡ c = cc (found, get_elem?-middle before chunks c) in
      (
        subst (λ m. Answers m c part) here (subst (λ b. Answers n b part) same h),
        AnswersFrom-sorted (suc k) (before ++ c ∷ []) chunks parts
            (omega (arith, length-append before (c ∷ []))) rest (omega arith)
            (rw (append_assoc before (c ∷ []) chunks) others),
      )

  -- On any run of the steps of an upload, in whatever order parts are stored and joined: an upload
  -- that reports success has received chunks and then the signal of success, has sent one request,
  -- which completes the object with the answers to these chunks, numbered from 1 on and in order,
  -- and that request has succeeded.
  pub conclude_lem :
      (completed : List CompletedPart → Result String (Unit {0})) (items : List StreamItem)
      {u : Upload}
      → Reach Answers (start items) u
      → u.phase ≡ over
      → (conclude completed u).1 ≡ ok tt
      → (chunks : List (List ℕ)) × (rest : List StreamItem) × (parts : List CompletedPart) × (items
          ≡ map data_item chunks ++ success ∷ rest)
        × AnswersFrom 1 chunks parts
        × ((conclude completed u).0 ≡ complete_multipart_upload parts ∷ [])
        × (completed parts ≡ ok tt)
  unfolding conclude finish count
  conclude_lem completed items {u} r o h =
      let (chunks, a) = Reach-IsAccounted Answers r in
      let no_error : u.upload_error ≡ none = ground (arith, h) in
      let signalled : u.success_signal_received ≡ true = ground (arith, h) in
      let (no_running, no_ended) = a.drained_all o no_error in
      let (numbered, len) =
        sort-Numbered (length chunks) u.completed_parts_with_index
          λ k. ground (arith, a.once k no_error, ap (count k) no_running, ap (count k) no_ended) in
      (
        chunks,
        u.rx,
        map (λ p. p.1) (sort u.completed_parts_with_index),
        a.received ∙ rw signalled refl,
        AnswersFrom-sorted 1 [] chunks (sort u.completed_parts_with_index) refl numbered len
            (sort-All (AnswersChunk Answers chunks) u.completed_parts_with_index a.answers),
        ground (arith, no_error, signalled, h),
        ground (arith, no_error, signalled, h),
      )
