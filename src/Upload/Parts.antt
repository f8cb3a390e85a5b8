-- ===== src/Upload/Parts.antt =====
-- holonomy-core/src/crypto/pme_encrypt.rs: what an upload has done with the chunks of the stream, at
-- every moment of every run, and what it completes the object with.
use mathlib.Core.List.{map-append, append_assoc}
use holonomy_source.Common.{
  ℕ, suc, zero, ◌+◌, ◌≡◌, ◌≢◌, refl, sym, ap, ◌∙◌, subst, String, true, false, Option, none, some,
  List, [], ◌∷◌, ◌++◌, map, length, length-append, get_elem?, arith, leb, ltb, ◌&&◌, if◌then◌else◌,
  All, All-append, All-split, All-weaken, get_elem?-append, get_elem?-middle,
}
use holonomy_source.Common.Result.{Result, ok, err}
use holonomy_source.Upload.{
  StreamItem, data_item, success, CompletedPart, looping, over, Upload, start, Ends, stored, Step,
  acquire, receive, signal, closed, answer, join, join_failed, drained, Reach, here, next,
}
use holonomy_source.Upload.Sorting.{count, count-append, count-middle}

-- The chunk of part `n`: the parts are numbered from 1 on.
abbrev pub chunk_of : List (List ℕ) → ℕ → Option (List ℕ)
chunk_of chunks zero = none
chunk_of chunks (suc i) = get_elem? chunks i

chunk_of-append :
    {body : List ℕ} (n : ℕ) (xs ys : List (List ℕ))
    → chunk_of xs n ≡ some body
    → chunk_of (xs ++ ys) n ≡ some body
chunk_of-append zero xs ys h = cc
chunk_of-append (suc i) xs ys h = get_elem?-append i xs ys h

module _ (Answers : ℕ → List ℕ → CompletedPart → Type 0) where
  abbrev pub RunsChunk : List (List ℕ) → ℕ × List ℕ → Type 0
  RunsChunk chunks (n, body) = chunk_of chunks n ≡ some body

  -- The part is the answer to the chunk of its number.
  abbrev pub AnswersChunk : List (List ℕ) → ℕ × CompletedPart → Type 0
  AnswersChunk chunks (n, part) =
      (body : List ℕ) × (chunk_of chunks n ≡ some body) × Answers n body part

  abbrev pub EndsChunk : List (List ℕ) → ℕ × Result String CompletedPart → Type 0
  EndsChunk chunks (n, r) =
      (body : List ℕ) × (chunk_of chunks n ≡ some body) × Ends Answers n body r

  -- The chunks received so far; each has one task, running, ended or joined, unless one has failed.
  pub record IsAccounted (items : List StreamItem) (chunks : List (List ℕ)) (u : Upload)
      : Type 0 where
    pub received :
        items ≡ map data_item chunks ++ (if u.success_signal_received then success ∷ u.rx else u.rx)
    pub numbered : u.part_number ≡ suc (length chunks)
    pub permitted : u.permits + (if u.permit_opt then 1 else 0) + length u.running ≡ 8
    pub runs : All (RunsChunk chunks) u.running
    pub ends : All (EndsChunk chunks) u.ended
    pub answers : All (AnswersChunk chunks) u.completed_parts_with_index
    pub once :
        (k : ℕ)
        → u.upload_error ≡ none
        → count k u.running + count k u.ended + count k u.completed_parts_with_index
          ≡ (if leb 1 k && ltb k (1 + length chunks) then 1 else 0)
    pub drained_all : u.phase ≡ over → u.upload_error ≡ none → (u.running ≡ []) × (u.ended ≡ [])
    pub signalled : u.phase ≡ looping → u.success_signal_received ≡ false

  start-IsAccounted : (items : List StreamItem) → IsAccounted items [] (start items)
  unfolding count
  start-IsAccounted items = record {
    received = refl;
    numbered = refl;
    permitted = refl;
    runs = tt;
    ends = tt;
    answers = tt;
    once = λ k e. ground arith;
    drained_all = λ p e. (refl, refl);
    signalled = λ p. refl;
  }

  answer_of :
      {n : ℕ} {body : List ℕ} {part : CompletedPart}
      → Ends Answers n body (ok part)
      → Answers n body part
  answer_of (stored part h) = h

  module _ {items : List StreamItem} {chunks : List (List ℕ)} {u : Upload} where
    receive-IsAccounted :
        (chunk : List ℕ) (rest : List StreamItem)
        → u.phase ≡ looping
        → u.permit_opt ≡ true
        → u.rx ≡ data_item chunk ∷ rest
        → IsAccounted items chunks u
        → IsAccounted items (chunks ++ chunk ∷ []) (record u {
          rx = rest;
          permit_opt = false;
          part_number = u.part_number + 1;
          running = (u.part_number, chunk) ∷ u.running;
        })
    unfolding count
    receive-IsAccounted chunk rest p o e a = record {
      received =
          a.received
          ∙ rw (a.signalled p, e, map-append)
              (sym (append_assoc (map data_item chunks) (data_item chunk ∷ []) rest));
      numbered = omega (arith, a.numbered, length-append chunks (chunk ∷ []));
      permitted = ground (arith, o, a.permitted);
      runs = (
        rw (a.numbered) (get_elem?-middle chunks [] chunk),
        All-weaken _ (RunsChunk (chunks ++ chunk ∷ [])) u.running
            (λ x h. chunk_of-append x.0 chunks _ h) a.runs,
      );
      ends =
          All-weaken (EndsChunk chunks) (EndsChunk (chunks ++ chunk ∷ [])) u.ended
            (λ x (body, h, r). (body, chunk_of-append x.0 chunks _ h, r)) a.ends;
      answers =
          All-weaken (AnswersChunk chunks) (AnswersChunk (chunks ++ chunk ∷ []))
            u.completed_parts_with_index
            (λ x (body, h, r). (body, chunk_of-append x.0 chunks _ h, r)) a.answers;
      once = λ k f. ground (arith, a.once k f, a.numbered, length-append chunks (chunk ∷ []));
      drained_all = λ q f. cc;
      signalled = λ q. a.signalled q;
    }

    answer-IsAccounted :
        (n : ℕ) (body : List ℕ) (before after : List (ℕ × List ℕ)) (r : Result String CompletedPart)
        → u.running ≡ before ++ (n, body) ∷ after
        → Ends Answers n body r
        → IsAccounted items chunks u
        → IsAccounted items chunks (record u {
          permits = u.permits + 1;
          running = before ++ after;
          ended = (n, r) ∷ u.ended;
        })
    unfolding count
    answer-IsAccounted n body before after r e ends a =
        let (mine, others) =
          All-split (RunsChunk chunks) (n, body) before after
            (subst (All (RunsChunk chunks)) e a.runs) in
        record {
          received = a.received;
          numbered = a.numbered;
          permitted = omega (
            arith,
            a.permitted,
            ap length e,
            length-append before after,
            length-append before ((n, body) ∷ after),
          );
          runs = others;
          ends = ((body, mine, ends), a.ends);
          answers = a.answers;
          once =
              λ k f. ground (arith, a.once k f, ap (count k) e, count-middle k n body before after);
          drained_all = λ q f. absurd (
              omega (
                arith,
                ap length e,
                ap length (a.drained_all q f).0,
                length-append before ((n, body) ∷ after),
              ));
          signalled = a.signalled;
        }

    join-IsAccounted :
        (n : ℕ) (part : CompletedPart) (before after : List (ℕ × Result String CompletedPart))
        → u.phase ≢ over
        → u.ended ≡ before ++ (n, ok part) ∷ after
        → IsAccounted items chunks u
        → IsAccounted items chunks (record u {
          ended = before ++ after;
          completed_parts_with_index = u.completed_parts_with_index ++ (n, part) ∷ [];
        })
    unfolding count
    join-IsAccounted n part before after p e a =
        let (mine, others) =
          All-split (EndsChunk chunks) (n, ok part) before after
            (subst (All (EndsChunk chunks)) e a.ends) in
        record {
          received = a.received;
          numbered = a.numbered;
          permitted = a.permitted;
          runs = a.runs;
          ends = others;
          answers =
              All-append (AnswersChunk chunks) u.completed_parts_with_index _ a.answers
                ((mine.0, mine.1, answer_of mine.2), tt);
          once = λ k f. ground (
            arith,
            a.once k f,
            ap (count k) e,
            count-middle k n (ok part) before after,
            count-append k u.completed_parts_with_index ((n, part) ∷ []),
          );
          drained_all = λ q f. absurd (p q);
          signalled = a.signalled;
        }

  Step-IsAccounted :
      {items : List StreamItem} {u v : Upload} (chunks : List (List ℕ))
      → Step Answers u v
      → IsAccounted items chunks u
      → (more : List (List ℕ)) × IsAccounted items more v
  Step-IsAccounted chunks (acquire n p o e f) a = (
    chunks,
    rw f (record {
      received = a.received;
      numbered = a.numbered;
      permitted = ground (arith, o, e, a.permitted);
      runs = a.runs;
      ends = a.ends;
      answers = a.answers;
      once = a.once;
      drained_all = a.drained_all;
      signalled = a.signalled;
    }),
  )
  Step-IsAccounted chunks (receive chunk rest p o e f) a =
      (chunks ++ chunk ∷ [], rw f (receive-IsAccounted chunk rest p o e a))
  Step-IsAccounted chunks (signal rest p o e f) a = (
    chunks,
    rw f (record {
      received = a.received ∙ rw (a.signalled p, e) refl;
      numbered = a.numbered;
      permitted = a.permitted;
      runs = a.runs;
      ends = a.ends;
      answers = a.answers;
      once = a.once;
      drained_all = λ q. cc;
      signalled = λ q. cc;
    }),
  )
  Step-IsAccounted chunks (closed p o e f) a = (
    chunks,
    rw f (record {
      received = a.received;
      numbered = a.numbered;
      permitted = a.permitted;
      runs = a.runs;
      ends = a.ends;
      answers = a.answers;
      once = a.once;
      drained_all = λ q. cc;
      signalled = λ q. cc;
    }),
  )
  Step-IsAccounted chunks (answer n body before after r e ends f) a =
      (chunks, rw f (answer-IsAccounted n body before after r e ends a))
  Step-IsAccounted chunks (join n part before after p e f) a =
      (chunks, rw f (join-IsAccounted n part before after p e a))
  Step-IsAccounted chunks (join_failed n error before after p e f) a = (
    chunks,
    rw f (record {
      received = a.received;
      numbered = a.numbered;
      permitted = a.permitted;
      runs = a.runs;
      ends =
          (All-split (EndsChunk chunks) (n, err error) before after
            (subst (All (EndsChunk chunks)) e a.ends)).1;
      answers = a.answers;
      once = λ k. cc;
      drained_all = λ q. cc;
      signalled = λ q. cc;
    }),
  )
  Step-IsAccounted chunks (drained p e g f) a = (
    chunks,
    rw f (record {
      received = a.received;
      numbered = a.numbered;
      permitted = a.permitted;
      runs = a.runs;
      ends = a.ends;
      answers = a.answers;
      once = a.once;
      drained_all = λ q h. (e, g);
      signalled = λ q. cc;
    }),
  )

  pub Reach-IsAccounted :
      {items : List StreamItem} {u : Upload}
      → Reach Answers (start items) u
      → (chunks : List (List ℕ)) × IsAccounted items chunks u
  Reach-IsAccounted {items} here = ([], start-IsAccounted items)
  Reach-IsAccounted (next r s) =
      let (chunks, a) = Reach-IsAccounted r in Step-IsAccounted chunks s a
