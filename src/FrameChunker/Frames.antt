-- ===== src/FrameChunker/Frames.antt =====
-- Every frame gets, whole, into one chunk.
use stream_machine.Prelude.Tests.{either_branch}
use stream_machine.Prelude.{◌+◌, ◌++◌, ◌<◌, List, [], ap, arith, refl, subst, sym, ℕ, ◌∙◌, ◌∷◌, ◌≡◌}
use stream_machine.Prelude.Int.{ltb_ℤ, pos}
use stream_machine.Prelude.Lists.{length, length-append}
use stream_machine.FrameChunker.{
  FrameChunker, FrameObj, RawChunk, concat_frames, emit_chunk, transform, transform_all,
}
use mathlib.Core.List.{append_assoc, append-nil}

-- Groups of frames in a row.
abbrev pub join : List (List FrameObj) → List FrameObj
join [] = []
join (g ∷ gs) = g ++ join gs

-- Each chunk is made of one of the groups: of its frames, of which there is one at least, in order.
abbrev pub AreMadeOf : List RawChunk → List (List FrameObj) → Type 0
AreMadeOf [] gs = gs ≡ []
AreMadeOf (c ∷ cs) [] = ⊥
AreMadeOf (c ∷ cs) (g ∷ gs) =
    (c.data_bytes ≡ concat_frames g) × (c.frames ≡ length g) × (0 < length g) × AreMadeOf cs gs

append-AreMadeOf :
    (cs ds : List RawChunk) (gs hs : List (List FrameObj))
    → AreMadeOf cs gs
    → AreMadeOf ds hs
    → AreMadeOf (cs ++ ds) (gs ++ hs)
append-AreMadeOf [] ds gs hs m n = subst (λ l. AreMadeOf ds (l ++ hs)) (sym m) n
append-AreMadeOf (c ∷ cs) ds [] hs m n = absurd m
append-AreMadeOf (c ∷ cs) ds (g ∷ gs) hs (bytes, count, more, m) n =
    (bytes, count, more, append-AreMadeOf cs ds gs hs m n)

join-append : (gs hs : List (List FrameObj)) → join (gs ++ hs) ≡ join gs ++ join hs
join-append [] hs = refl
join-append (g ∷ gs) hs =
    ap (λ l. g ++ l) (join-append gs hs) ∙ sym (append_assoc g (join gs) (join hs))

-- The frames are cut into groups of which the chunks are made, and a rest that waits.
record IsCut (frames : List FrameObj) (out : FrameChunker × List RawChunk) : Type 0 where
  groups : List (List FrameObj)
  made : AreMadeOf out.1 groups
  whole : join groups ++ out.0.chunk_queue ≡ frames

transform-IsCut :
    (u : ℕ) (c : FrameChunker) (o : FrameObj) → IsCut (c.chunk_queue ++ o ∷ []) (transform u c o)
unfolding transform emit_chunk
transform-IsCut u c o =
    let group = c.chunk_queue ++ o ∷ [] in
    let longer = length-append c.chunk_queue (o ∷ []) in
    either_branch (IsCut group) (ltb_ℤ c.target (pos (c.queue_duration + o.duration))) _ _
      (λ full. record {
        groups = group ∷ [];
        made = (refl, refl, omega (arith, longer), refl);
        whole = append-nil (group ++ []) ∙ append-nil group;
      })
      (λ waits. record { groups = []; made = refl; whole = refl })

-- The frames that were waiting and came are cut, in order, into groups and a rest: the rest waits,
-- and each chunk is made of one group, of all the bytes of its frames and with their number, which
-- is not 0. So no frame is lost, doubled or split.
pub transform_all-frames :
    (u : ℕ) (os : List FrameObj) (c : FrameChunker)
    → let r = transform_all u c os in
      (groups : List (List FrameObj)) × AreMadeOf r.1 groups
      × (join groups ++ r.0.chunk_queue ≡ c.chunk_queue ++ os)
unfolding transform_all
transform_all-frames u [] c = ([], refl, sym (append-nil c.chunk_queue))
transform_all-frames u (o ∷ os) c =
    let r = transform u c o in
    let v = transform-IsCut u c o in
    let (groups, made, whole) = transform_all-frames u os r.0 in
    (
      v.groups ++ groups,
      append-AreMadeOf r.1 _ v.groups groups v.made made,
      ap (λ l. l ++ (transform_all u r.0 os).0.chunk_queue) (join-append v.groups groups)
          ∙ append_assoc (join v.groups) (join groups) _
          ∙ ap (λ l. join v.groups ++ l) whole
          ∙ sym (append_assoc (join v.groups) r.0.chunk_queue os)
          ∙ ap (λ l. l ++ os) v.whole
          ∙ append_assoc c.chunk_queue (o ∷ []) os,
    )
