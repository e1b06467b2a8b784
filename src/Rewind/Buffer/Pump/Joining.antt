-- ===== src/Rewind/Buffer/Pump/Joining.antt =====
-- How a client joins: `getRewinder` of rewind_buffer.js, and what the client's queue then holds.
use stream_machine.Rewind.Rewinder
use stream_machine.Prelude.{
  ◌++◌, ◌-◌, ◌<◌, List, [], false, none, some, suc, sym, ℕ, ◌∷◌, ◌≡◌, Bool, ap, arith, min, refl,
  true, ◌∙◌, ◌≤◌, zero,
}
use stream_machine.Rewind.Store.{Chunk}
use stream_machine.Rewind.Rewinder.Delivery.{IsCounted, queued, insert_lem}
use stream_machine.Rewind.Buffer.Pump.{
  OpenOptions, concat_bytes, construct, get_rewinder, insert_all, PumpInfo, fill, joined, pump_from,
  burst_from, pump_seconds,
}
use stream_machine.Rewind.Buffer.{
  RewindBuffer, check_offset_secs, add_listener, check_offset, to_piece,
}
use stream_machine.Rewind.Rewinder.{Rewinder, new_rewinder}
use mathlib.Core.List.{append-nil, append_assoc}
use stream_machine.Prelude.Lists.{drop, length, take}
use stream_machine.Prelude.Int.{negsuc, pos, ℤ, ◌-ℤ◌, ltb_ℤ}
use stream_machine.Rewind.Store.Seek.{ok, number}
use stream_machine.Rewind.Store.Seek.Reading.{range-take}

-- On an empty buffer a client who asks for an offset above 0, with no pump, is given -1, and is
-- not added to those that get new chunks; the client is answered all the same.
pub get_rewinder-empty :
    (bs : List Chunk → ℕ → ℤ) (r : RewindBuffer) (id o : ℕ)
    → r.store.buffer ≡ []
    → let opts : OpenOptions = record {
      offset_secs = none;
      offset = some (pos (suc o));
      pump_only = false;
      pump = none;
    } in
      get_rewinder bs r id opts ≡ ok (r, record (new_rewinder id) { offset = negsuc 0 })
unfolding get_rewinder construct
get_rewinder-empty bs r id o e =
    let denied : check_offset r (pos (suc o)) ≡ negsuc 0 = unfold check_offset in ground arith in
    rw denied (unfold add_listener in refl)

queued-insert_all :
    (w : Rewinder) (cs : List Chunk)
    → IsCounted w
    → queued (insert_all w cs).queue ≡ queued w.queue ++ concat_bytes cs
unfolding insert_all concat_bytes
queued-insert_all w [] h = sym (append-nil (queued w.queue))
queued-insert_all w (c ∷ cs) h =
    let (added, counted) = insert_lem w (to_piece c) h in
    queued-insert_all (Rewinder.insert w (to_piece c)) cs counted
    ∙ ap (λ t. t ++ concat_bytes cs) added
    ∙ append_assoc (queued w.queue) c.bytes (concat_bytes cs)

-- Joined into one piece or not, the chunks are queued behind what was there.
queued-fill :
    (w : Rewinder) (concat : Bool) (cs : List Chunk)
    → IsCounted w
    → queued (fill w concat cs).queue ≡ queued w.queue ++ concat_bytes cs
unfolding fill
queued-fill w true cs h = (insert_lem w (joined cs) h).0
queued-fill w false cs h = queued-insert_all w cs h

offset-insert_all : (w : Rewinder) (cs : List Chunk) → (insert_all w cs).offset ≡ w.offset
unfolding insert_all
offset-insert_all w [] = refl
offset-insert_all w (c ∷ cs) =
    offset-insert_all (Rewinder.insert w (to_piece c)) cs ∙ (unfold Rewinder.insert in refl)

offset-fill :
    (w : Rewinder) (concat : Bool) (cs : List Chunk) → (fill w concat cs).offset ≡ w.offset
unfolding fill
offset-fill w true cs = unfold Rewinder.insert in refl
offset-fill w false cs = offset-insert_all w cs

-- The chunks from offset k on, n of them, in a buffer.
abbrev pub from_offset : ℕ → ℕ → List Chunk → List Chunk
from_offset k n cs = take n (drop (length cs - 1 - k) cs)

module _ (bs : List Chunk → ℕ → ℤ) (r : RewindBuffer) where
  -- A pump of n + 1 chunks from offset k + 1, which the buffer has.
  pump_from_lem :
      (w : Rewinder) (k n : ℕ) (concat : Bool)
      → suc k < length r.store.buffer
      → n ≤ k
      → (info : PumpInfo) × (pump_from bs r w (number (pos (suc k))) (pos (suc n)) concat
          ≡ ok (fill w concat (from_offset (suc k) (suc n) r.store.buffer), some info))
  unfolding pump_from
  pump_from_lem w k n concat h le =
      let e : min (suc n) (suc k) ≡ suc n = omega arith in
      let chunks = range-take bs r.store (suc k) (suc n) h in rw (chunks, e) (_, refl)

-- Of a live client and a burst of n + 1 chunks, where the buffer has more: the client is added
-- with offset 0, and its queue holds the n + 1 chunks that come before the newest.
pub open_live :
    (bs : List Chunk → ℕ → ℤ) (r : RewindBuffer) (id n : ℕ) (secs : ℤ)
    → check_offset_secs r secs ≡ pos (suc n)
    → suc n < length r.store.buffer
    → (w : Rewinder) × (get_rewinder bs r id
          (record { offset_secs = none; offset = none; pump_only = false; pump = some secs })
        ≡ ok (record r { listeners = r.listeners ++ w ∷ [] }, w))
      × (w.offset ≡ pos 0)
      × (queued w.queue ≡ concat_bytes (from_offset (suc n) (suc n) r.store.buffer))
unfolding get_rewinder construct pump_seconds
open_live bs r id n secs e h =
    let w₀ = record (new_rewinder id) { offset = pos 0 } in
    let chunks = from_offset (suc n) (suc n) r.store.buffer in
    let (info, pump) = pump_from_lem bs r w₀ n n true h (omega arith) in
    (
      fill w₀ true chunks,
      rw (e, pump) (unfold add_listener in rw (offset-fill w₀ true chunks)),
      offset-fill w₀ true chunks,
      queued-fill w₀ true chunks (unfold new_rewinder in refl) ∙ (unfold new_rewinder in refl),
    )

-- `burstFrom` from an offset beyond the burst queues the burst's chunks from that offset on, in
-- order, and moves the offset forward by as many.
pub burst_from_lem :
    (bs : List Chunk → ℕ → ℤ) (r : RewindBuffer) (w : Rewinder) (k n : ℕ) (secs : ℤ)
    → check_offset_secs r secs ≡ pos (suc n)
    → suc n < k
    → k < length r.store.buffer
    → IsCounted w
    → (w' : Rewinder) × (burst_from bs r w (pos k) secs ≡ ok (w', pos (k - suc n)))
      × (queued w'.queue ≡ queued w.queue ++ concat_bytes (from_offset k (suc n) r.store.buffer))
unfolding burst_from
burst_from_lem bs r w (suc k) n secs e h g counted =
    let chunks = from_offset (suc k) (suc n) r.store.buffer in
    let (info, pump) = pump_from_lem bs r w k n false g (omega arith) in
    let beyond : ltb_ℤ (pos (suc n)) (pos (suc k)) ≡ true = ground arith in
    let moved : pos (suc k) -ℤ pos (suc n) ≡ pos (suc k - suc n) = ground arith in
    (fill w false chunks, rw (e, beyond, pump, moved), queued-fill w false chunks counted)
burst_from_lem bs r w zero n secs e h g counted = absurd (omega arith)
