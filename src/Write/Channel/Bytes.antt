-- ===== src/Write/Channel/Bytes.antt =====
-- holonomy-core/src/manager/write_orchestrator.rs: the chunks that a `ChannelWriter` sends are the
-- bytes that were written to it.
use mathlib.Core.List.{append_assoc, append-nil}
use holonomy_source.Common.{
  ℕ, zero, suc, ◌≤◌, ◌<◌, ◌≡◌, refl, sym, ap, ◌∙◌, subst, String, Bool, true, false, List, [], ◌∷◌,
  ◌++◌, length, leb, take, drop, take-append-drop, length-take, length-drop, concat, concat-append,
  All, All-append, arith, Bool-cases, ◌⊎◌, inl, inr,
}
use holonomy_source.Common.Result.{Result, ok, err}
use holonomy_source.Write.Channel.{ChannelWriter, blocking_send, write_loop, write, write_all}

abbrev pub new : ℕ → ChannelWriter
new size = record { buffer = []; chunk_size = size; tx = []; has_failed = false }

abbrev pub HasSize : ℕ → List ℕ → Type 0
HasSize size chunk = length chunk ≡ size

-- All bytes are sent or in the buffer, and all chunks have the size.
pub record IsIntact (size : ℕ) (written : List ℕ) (w : ChannelWriter) : Type 0 where
  pub sized : w.chunk_size ≡ size
  pub sound : w.has_failed ≡ false
  pub kept : written ≡ concat w.tx ++ w.buffer
  pub chunks : All (HasSize size) w.tx

module _ (is_open : ℕ → Bool) where
  -- A send has failed: what was sent are the first of the bytes.
  pub record IsBroken (size : ℕ) (written : List ℕ) (w : ChannelWriter) : Type 0 where
    pub failed : w.has_failed ≡ true
    pub lost : List ℕ
    pub prefix : written ≡ concat w.tx ++ lost
    pub chunks : All (HasSize size) w.tx

  -- A send of the first bytes of the buffer.
  send_lem :
      (size : ℕ) (written chunk : List ℕ) (w : ChannelWriter)
      → w.chunk_size ≡ size
      → w.has_failed ≡ false
      → written ≡ concat w.tx ++ (chunk ++ w.buffer)
      → All (HasSize size) w.tx
      → length chunk ≡ size
      → (((blocking_send is_open chunk w).1 ≡ ok tt)
          × IsIntact size written (blocking_send is_open chunk w).0
          × ((blocking_send is_open chunk w).0.buffer ≡ w.buffer))
        ⊎ (((blocking_send is_open chunk w).1 ≡ err "Channel closed")
            × IsBroken size written (blocking_send is_open chunk w).0
            × (is_open (length w.tx) ≡ false))
  unfolding blocking_send
  send_lem size written chunk w s f k a l = elim (Bool-cases (is_open (length w.tx))) [
    | inl open_ ↦ rw open_ (
        inl (
          refl,
          record {
            sized = s;
            sound = f;
            kept =
                k
                ∙ rw (concat-append w.tx (chunk ∷ []), append-nil)
                    (sym (append_assoc (concat w.tx) chunk w.buffer));
            chunks = All-append (HasSize size) w.tx (chunk ∷ []) a (l, tt);
          },
          refl,
        ))
    | inr gone ↦ rw gone (
        inr
          (refl, record { failed = refl; lost = chunk ++ w.buffer; prefix = k; chunks = a }, refl))
  ]

  unfoldable pub Outcome : ℕ → List ℕ → ChannelWriter × Result String (Unit {0}) → Type 0
  Outcome size written (w, r) =
      ((r ≡ ok tt) × IsIntact size written w × (length w.buffer < size))
      ⊎ ((r ≡ err "Channel closed") × IsBroken size written w × ((n : ℕ) × (is_open n ≡ false)))

  Outcome-ok :
      {size : ℕ} {written : List ℕ} {w : ChannelWriter}
      → length w.buffer < size
      → IsIntact size written w
      → Outcome size written (w, ok tt)
  unfolding Outcome
  Outcome-ok h i = inl (refl, i, h)

  Outcome-err :
      {size n : ℕ} {written : List ℕ} {w : ChannelWriter}
      → IsBroken size written w
      → is_open n ≡ false
      → Outcome size written (w, err "Channel closed")
  unfolding Outcome
  Outcome-err {n = n} b closed = inr (refl, b, (n, closed))

  -- The writer after the next send of the loop, with the result of the send.
  abbrev send_next : ChannelWriter → ChannelWriter × Result String (Unit {0})
  send_next w =
      blocking_send is_open (take w.chunk_size w.buffer)
        (record w { buffer = drop w.chunk_size w.buffer })

  write_loop_small :
      (fuel : ℕ) (w : ChannelWriter)
      → leb w.chunk_size (length w.buffer) ≡ false
      → write_loop is_open (suc fuel) w ≡ (w, ok tt)
  unfolding write_loop
  write_loop_small fuel w small = ground arith

  write_loop_sent :
      (fuel : ℕ) (w : ChannelWriter)
      → leb w.chunk_size (length w.buffer) ≡ true
      → (send_next w).1 ≡ ok tt
      → write_loop is_open (suc fuel) w ≡ write_loop is_open fuel (send_next w).0
  unfolding write_loop
  write_loop_sent fuel w large done = ground arith

  write_loop_gone :
      (fuel : ℕ) (w : ChannelWriter) {e : String}
      → leb w.chunk_size (length w.buffer) ≡ true
      → (send_next w).1 ≡ err e
      → write_loop is_open (suc fuel) w ≡ ((send_next w).0, err e)
  unfolding write_loop
  write_loop_gone fuel w large gone = ground arith

  send_next_lem :
      (size : ℕ) (written : List ℕ) (w : ChannelWriter)
      → size ≤ length w.buffer
      → IsIntact size written w
      → (((send_next w).1 ≡ ok tt)
          × IsIntact size written (send_next w).0
          × ((send_next w).0.buffer ≡ drop w.chunk_size w.buffer))
        ⊎ (((send_next w).1 ≡ err "Channel closed")
            × IsBroken size written (send_next w).0
            × (is_open (length w.tx) ≡ false))
  send_next_lem size written w h i =
      send_lem size written (take w.chunk_size w.buffer)
        (record w { buffer = drop w.chunk_size w.buffer }) i.sized i.sound
        (i.kept ∙ ap (λ b. concat w.tx ++ b) (sym (take-append-drop w.chunk_size w.buffer)))
        i.chunks (length-take w.chunk_size w.buffer (omega (arith, i.sized)) ∙ i.sized)

  write_loop_lem :
      (size : ℕ) (written : List ℕ) (fuel : ℕ) (w : ChannelWriter)
      → 0 < size
      → length w.buffer < fuel
      → IsIntact size written w
      → Outcome size written (write_loop is_open fuel w)
  write_loop_lem size written zero w p h i = absurd (omega arith)
  write_loop_lem size written (suc fuel) w p h i =
      elim (Bool-cases (leb w.chunk_size (length w.buffer))) [
        | inr small ↦
            subst (Outcome size written) (sym (write_loop_small fuel w small))
              (Outcome-ok (ground (arith, i.sized, small)) i)
        | inl large ↦ elim (send_next_lem size written w (ground (arith, i.sized, large)) i) [
          | inl (done, intact, left) ↦
              subst (Outcome size written) (sym (write_loop_sent fuel w large done)) (
                write_loop_lem size written fuel (send_next w).0 p
                  (ground
                    (arith, large, ap length left, length-drop w.chunk_size w.buffer, i.sized))
                  intact)
          | inr (gone, broken, closed) ↦
              subst (Outcome size written) (sym (write_loop_gone fuel w large gone))
                (Outcome-err broken closed)
        ]
      ]

  -- What a write leaves, and with it all writes.
  write_lem :
      (size : ℕ) (written buf : List ℕ) (w : ChannelWriter)
      → 0 < size
      → IsIntact size written w
      → (((write is_open buf w).1 ≡ ok (length buf))
          × IsIntact size (written ++ buf) (write is_open buf w).0
          × (length (write is_open buf w).0.buffer < size))
        ⊎ (((write is_open buf w).1 ≡ err "Channel closed")
            × IsBroken size (written ++ buf) (write is_open buf w).0
            × ((n : ℕ) × (is_open n ≡ false)))
  unfolding write Outcome
  write_lem size written buf w p i =
      elim (write_loop_lem size (written ++ buf) (suc (length (w.buffer ++ buf)))
        (record w { buffer = w.buffer ++ buf }) p (omega arith)
        (record {
          sized = i.sized;
          sound = i.sound;
          kept = ap (λ b. b ++ buf) i.kept ∙ append_assoc (concat w.tx) w.buffer buf;
          chunks = i.chunks;
        })) [
          | inl (done, intact, small) ↦ inl (ground (arith, done), intact, small)
          | inr (gone, broken, closed) ↦ inr (ground (arith, gone), broken, closed)
        ]

  IsBroken-append :
      {size : ℕ} {written : List ℕ} {w : ChannelWriter} (more : List ℕ)
      → IsBroken size written w
      → IsBroken size (written ++ more) w
  IsBroken-append {w = w} more b = record {
    failed = b.failed;
    lost = b.lost ++ more;
    prefix = ap (λ a. a ++ more) b.prefix ∙ append_assoc (concat w.tx) b.lost more;
    chunks = b.chunks;
  }

  write_all_next :
      (buf : List ℕ) (bufs : List (List ℕ)) (w : ChannelWriter) {n : ℕ}
      → (write is_open buf w).1 ≡ ok n
      → write_all is_open (buf ∷ bufs) w ≡ write_all is_open bufs (write is_open buf w).0
  unfolding write_all
  write_all_next buf bufs w done = ground arith

  write_all_gone :
      (buf : List ℕ) (bufs : List (List ℕ)) (w : ChannelWriter) {e : String}
      → (write is_open buf w).1 ≡ err e
      → write_all is_open (buf ∷ bufs) w ≡ ((write is_open buf w).0, err e)
  unfolding write_all
  write_all_gone buf bufs w gone = ground arith

  pub write_all_lem :
      (size : ℕ) (written : List ℕ) (bufs : List (List ℕ)) (w : ChannelWriter)
      → 0 < size
      → length w.buffer < size
      → IsIntact size written w
      → Outcome size (written ++ concat bufs) (write_all is_open bufs w)
  unfolding write_all
  write_all_lem size written [] w p h i = rw (append-nil written) (Outcome-ok h i)
  write_all_lem size written (buf ∷ bufs) w p h i =
      rw (← append_assoc written buf (concat bufs)) (elim (write_lem size written buf w p i) [
        | inl (done, intact, small) ↦
            subst (Outcome size ((written ++ buf) ++ concat bufs))
              (sym (write_all_next buf bufs w done))
              (write_all_lem size (written ++ buf) bufs (write is_open buf w).0 p small intact)
        | inr (gone, broken, (n, closed)) ↦
            subst (Outcome size ((written ++ buf) ++ concat bufs))
              (sym (write_all_gone buf bufs w gone))
              (Outcome-err (IsBroken-append (concat bufs) broken) closed)
      ])
