-- ===== src/Rewind/Rewinder/Delivery.antt =====
-- What rewinder.js delivers to the client, and how it is accounted for.
use stream_machine.Prelude.{
  ◌+◌, ◌++◌, Bool, List, [], ap, arith, false, refl, sym, ℕ, ◌∙◌, ◌∷◌, ◌≡◌, Option, String, inl,
  inr, none, some, suc, true, ◌⊎◌,
}
use stream_machine.Rewind.Rewinder.{
  Output, Piece, Rewinder, audio, insert, push_queue, handle_empty, meta_events, read, readable,
  shift_piece, empty_push, pause, insert_undefined, threw,
}
use mathlib.Core.List.{append-nil, append_assoc}
use stream_machine.Prelude.Lists.{length, length-append}
use stream_machine.Prelude.Tests.{Bool-cases, ltb}

abbrev pub queued : List (Option Piece) → List ℕ
queued [] = []
queued (none ∷ rest) = queued rest
queued (some b ∷ rest) = b.bytes ++ queued rest

abbrev pub has_undefined : List (Option Piece) → Bool
has_undefined [] = false
has_undefined (none ∷ rest) = true
has_undefined (some b ∷ rest) = has_undefined rest

-- The audio among the outputs of a read, in order.
abbrev pub heard : List Output → List ℕ
heard [] = []
heard (audio bytes ∷ more) = bytes ++ heard more
heard (_ ∷ more) = heard more

queued-append : (xs ys : List (Option Piece)) → queued (xs ++ ys) ≡ queued xs ++ queued ys
queued-append [] ys = refl
queued-append (none ∷ xs) ys = queued-append xs ys
queued-append (some x ∷ xs) ys =
    rw (queued-append xs ys) (sym (append_assoc x.bytes (queued xs) (queued ys)))

-- The counter agrees with the queue.
abbrev pub IsCounted : Rewinder → Type 0
IsCounted r = r.queued_bytes ≡ length (queued r.queue)

pub queued-insert :
    (r : Rewinder) (b : Piece) → queued (insert r b).queue ≡ queued r.queue ++ b.bytes
unfolding insert
queued-insert r b =
    queued-append r.queue (some b ∷ []) ∙ ap (λ t. queued r.queue ++ t) (append-nil b.bytes)

-- Inserting a piece puts its audio at the end of what is queued, and keeps the counter right.
pub insert_lem :
    (r : Rewinder) (b : Piece)
    → IsCounted r
    → (queued (insert r b).queue ≡ queued r.queue ++ b.bytes) × IsCounted (insert r b)
unfolding insert
insert_lem r b h =
    let e = queued-insert r b in (e, rw e (omega (arith, length-append (queued r.queue) b.bytes)))

-- What a read does that begins with so many bytes sent and with `todo` in the queue.
pub record Delivers (before : ℕ) (todo : List (Option Piece)) (result : Rewinder × List Output)
    : Type 0 where
  pub order : heard result.1 ++ queued result.0.queue ≡ queued todo
  pub counted : result.0.queued_bytes ≡ length (queued result.0.queue)
  pub sent : result.0.sent_bytes ≡ before + length (heard result.1)
  pub idle : (result.0.reading ≡ false) ⊎ (has_undefined todo ≡ true)

heard-piece :
    (m : Option String) (b : List ℕ) (more : List Output)
    → heard ((meta_events m ++ audio b ∷ []) ++ more) ≡ b ++ heard more
unfolding meta_events
heard-piece none b more = refl
heard-piece (some m) b more = refl

-- A piece in front adds its audio in front.
after_piece :
    (r : Rewinder) (b : Piece) (rest : List (Option Piece)) (next : Rewinder) (more : List Output)
    → r.queued_bytes ≡ length (queued (some b ∷ rest))
    → Delivers (shift_piece r b rest).sent_bytes rest (next, more)
    → Delivers r.sent_bytes
        (some b ∷ rest)
        (next, (meta_events b.meta ++ audio b.bytes ∷ []) ++ more)
unfolding shift_piece
after_piece r b rest next more h d =
    let e = heard-piece b.meta b.bytes more in
    record {
      order =
          rw e (
            append_assoc b.bytes (heard more) (queued next.queue) ∙ ap (λ t. b.bytes ++ t) d.order);
      counted = d.counted;
      sent = rw e (omega (arith, d.sent, length-append b.bytes (heard more)));
      idle = d.idle;
    }

-- A read that stops leaves the rest of the queue, and has shown no more audio.
stopped :
    (r : Rewinder) (todo : List (Option Piece)) (o : Output)
    → r.queue ≡ todo
    → r.queued_bytes ≡ length (queued todo)
    → heard (o ∷ []) ≡ []
    → Delivers r.sent_bytes todo (record r { reading = false }, o ∷ [])
stopped r todo o e h silent = record {
  order = rw (silent, e);
  counted = rw e h;
  sent = rw silent (omega arith);
  idle = inl refl;
}

handle_empty-Delivers :
    (r : Rewinder) → r.queue ≡ [] → r.queued_bytes ≡ 0 → Delivers r.sent_bytes [] (handle_empty r)
unfolding handle_empty
handle_empty-Delivers r e h = stopped r [] _ e h (ground arith)

pause-Delivers :
    (r : Rewinder) (todo : List (Option Piece))
    → r.queue ≡ todo
    → r.queued_bytes ≡ length (queued todo)
    → Delivers r.sent_bytes todo (pause r todo)
unfolding pause
pause-Delivers r [] e h = handle_empty-Delivers r e h
pause-Delivers r (b ∷ rest) e h = stopped r (b ∷ rest) empty_push e h refl

counted_rest :
    (r : Rewinder) (b : Piece) (rest : List (Option Piece))
    → r.queued_bytes ≡ length (queued (some b ∷ rest))
    → (shift_piece r b rest).queued_bytes ≡ length (queued rest)
unfolding shift_piece
counted_rest r b rest h = omega (arith, length-append b.bytes (queued rest))

module _ (accepts : ℕ → Bool) (size : ℕ) where
  push_queue-Delivers :
      (r : Rewinder) (todo : List (Option Piece)) (n sent : ℕ)
      → r.queue ≡ todo
      → r.queued_bytes ≡ length (queued todo)
      → Delivers r.sent_bytes todo (push_queue accepts size r todo n sent)
  unfolding push_queue
  push_queue-Delivers r [] n sent e h = handle_empty-Delivers r e h
  push_queue-Delivers r (none ∷ rest) n sent e h = record {
    order = refl;
    counted = h;
    sent = omega arith;
    idle = inr refl;
  }
  push_queue-Delivers r (some b ∷ rest) n sent e h =
      let r' = shift_piece r b rest in
      let q : r'.queue ≡ rest = unfold shift_piece in refl in
      let h' = counted_rest r b rest h in
      let ih = push_queue-Delivers r' rest (suc n) (sent + length b.bytes) q h' in
      elim (Bool-cases (accepts n)) [
        | inr refused ↦ rw refused (after_piece r b rest _ _ h (stopped r' rest readable q h' refl))
        | inl taken ↦ elim (Bool-cases (ltb (sent + length b.bytes) size)) [
          | inl more ↦ rw (taken, more) (after_piece r b rest _ _ h ih)
          | inr full ↦ rw (taken, full) (after_piece r b rest _ _ h (pause-Delivers r' rest q h'))
        ]
      ]

  -- A read on a counter that agrees with the queue delivers a front part of the queued audio, in
  -- order and complete: what it shows, followed by what stays queued, is what was queued. The
  -- counters follow it, whatever the pushes return, and the rewinder can be read again, unless there
  -- is an `undefined` in the queue.
  pub read-Delivers :
      (r : Rewinder)
      → r.reading ≡ false
      → IsCounted r
      → Delivers r.sent_bytes r.queue (read accepts size r)
  unfolding read
  read-Delivers r idle h =
      rw idle (push_queue-Delivers (record r { reading = true }) r.queue 0 0 refl h)

-- A rewinder whose queue begins with an `undefined` throws when it is read.
pub read_undefined :
    (accepts : ℕ → Bool) (size : ℕ) (r : Rewinder)
    → r.queue ≡ []
    → r.reading ≡ false
    → (read accepts size (insert_undefined r)).1 ≡ threw ∷ []
unfolding read push_queue insert_undefined
read_undefined accepts size r empty idle = rw (idle, empty) refl
