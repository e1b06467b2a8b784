-- ===== src/Mp3/Parser/Resync.antt =====
-- What the parser makes of a tag between two frames.
use stream_machine.Strtok.{run}
use stream_machine.Mp3.Header.{parse_frame}
use stream_machine.Prelude.Lists.{length}
use stream_machine.Mp3.Parser.Framing.{IsReady, cons-IsRun_from, done-IsRun}
use stream_machine.Mp3.Parser.{
  AreServed, Mp3, audio_token, finish_id3v1, finish_id3v2, has_tag, header_id3v2, id3v1, id3v2,
  id3v2_length, next_header, parse_id3v1, token, tokens,
}
use stream_machine.Prelude.{◌++◌, List, [], false, none, refl, true, ℕ, ◌∷◌, ◌≡◌}

v1_found :
    (p : Mp3) (w : ℕ)
    → IsReady p
    → token p (84 ∷ 65 ∷ 71 ∷ w ∷ [])
      ≡ (record p { parsing_id3v1 = true; id3v1_1 = 84 ∷ 65 ∷ 71 ∷ w ∷ [] }, [], 124)
unfolding token audio_token next_header has_tag
v1_found p w r = simp (r.no_id3v1, r.no_id3v2, r.no_rest, r.no_frame, r.synced)

v1_read :
    (p : Mp3) (w : ℕ) (rest : List ℕ)
    → token (record p { parsing_id3v1 = true; id3v1_1 = 84 ∷ 65 ∷ 71 ∷ w ∷ [] }) rest ≡ (
      record p { id3v1_1 = []; parsing_id3v1 = false },
      id3v1 (parse_id3v1 (84 ∷ 65 ∷ 71 ∷ w ∷ rest)) ∷ [],
      4,
    )
unfolding token finish_id3v1
v1_read p w rest = refl

v1-IsReady : (p : Mp3) → IsReady p → IsReady (record p { id3v1_1 = []; parsing_id3v1 = false })
v1-IsReady p r = record {
  no_id3v1 = refl;
  no_id3v2 = r.no_id3v2;
  no_rest = r.no_rest;
  no_frame = r.no_frame;
  synced = r.synced;
  no_ff = r.no_ff;
}

-- A 128-byte ID3v1 tag between two frames is given as one event, and the next frame is wanted.
pub id3v1-IsReady :
    (p : Mp3) (w : ℕ) (rest : List ℕ)
    → IsReady p
    → length rest ≡ 124
    → let vs = (84 ∷ 65 ∷ 71 ∷ w ∷ []) ∷ rest ∷ [] in
      (q : Mp3) × (tokens p 4 vs ≡ (q, id3v1 (parse_id3v1 (84 ∷ 65 ∷ 71 ∷ w ∷ rest)) ∷ [], 4))
      × AreServed p 4 vs
      × IsReady q
id3v1-IsReady p w rest ready l =
    let q = record p { id3v1_1 = []; parsing_id3v1 = false } in
    let tagged = record p { parsing_id3v1 = true; id3v1_1 = 84 ∷ 65 ∷ 71 ∷ w ∷ [] } in
    let read = cons-IsRun_from tagged q 124 rest [] [] _ (v1_read p w rest) l (done-IsRun q 4) in
    let (run, served) =
      cons-IsRun_from p q 4 (84 ∷ 65 ∷ 71 ∷ w ∷ []) (rest ∷ []) _ _ (v1_found p w ready) refl
        read in
    (q, run, served, v1-IsReady p ready)

v2_found :
    (p : Mp3) (w : ℕ)
    → IsReady p
    → token p (73 ∷ 68 ∷ 51 ∷ w ∷ [])
      ≡ (record p { parsing_id3v2 = true; id3v2_1 = 73 ∷ 68 ∷ 51 ∷ w ∷ [] }, [], 6)
unfolding token audio_token next_header has_tag
v2_found p w r = simp (r.no_id3v1, r.no_id3v2, r.no_rest, r.no_frame, r.synced)

v2_sized :
    (p : Mp3) (tag size : List ℕ)
    → IsReady p
    → token (record p { parsing_id3v2 = true; id3v2_1 = tag }) size ≡ (
      record p { parsing_id3v2 = false; finishing_id3v2 = true; id3v2_1 = tag; id3v2_2 = size },
      [],
      id3v2_length size,
    )
unfolding token header_id3v2
v2_sized p tag size r = simp (r.no_id3v1)

-- The state behind a tag.
abbrev behind : Mp3 → List ℕ → List ℕ → Mp3
behind p tag size = record p {
  parsing_id3v2 = false;
  finishing_id3v2 = false;
  id3v2_1 = tag;
  id3v2_2 = size;
}

v2_read :
    (p : Mp3) (tag size rest : List ℕ)
    → IsReady p
    → token (record (behind p tag size) { finishing_id3v2 = true }) rest
      ≡ (behind p tag size, id3v2 (tag ++ size ++ rest) ∷ [], 1)
unfolding token finish_id3v2
v2_read p tag size rest r = simp (r.no_id3v1)

lost :
    (p : Mp3) (tag size : List ℕ)
    → IsReady p
    → token (behind p tag size) (255 ∷ [])
      ≡ (record (behind p tag size) { frame_header = none }, [], 1)
unfolding token audio_token next_header has_tag parse_frame
lost p tag size r = simp (r.no_id3v1, r.no_frame, r.synced)

-- After an ID3v2 tag between two frames the parser wants one byte, and tries to read a whole header
-- from it: when it is the 0xFF with which the next frame begins, it is dropped, and the search for a
-- frame goes on behind it as if no 0xFF had come.
pub id3v2-loses_frame :
    (p : Mp3) (w : ℕ) (size rest : List ℕ)
    → IsReady p
    → length size ≡ 6
    → length rest ≡ id3v2_length size
    → let vs = (73 ∷ 68 ∷ 51 ∷ w ∷ []) ∷ size ∷ rest ∷ (255 ∷ []) ∷ [] in
      (q : Mp3) × (tokens p 4 vs ≡ (q, id3v2 (73 ∷ 68 ∷ 51 ∷ w ∷ size ++ rest) ∷ [], 1))
      × AreServed p 4 vs
      × (q.frame_header ≡ none)
      × (q.got_ff ≡ false)
id3v2-loses_frame p w size rest r l k =
    let tag = 73 ∷ 68 ∷ 51 ∷ w ∷ [] in
    let q = record (behind p tag size) { frame_header = none } in
    let last =
      cons-IsRun_from (behind p tag size) q 1 (255 ∷ []) [] [] _ (lost p tag size r) refl
        (done-IsRun q 1) in
    let third =
      cons-IsRun_from _ q (id3v2_length size) rest _ _ _ (v2_read p tag size rest r) k last in
    let second = cons-IsRun_from _ q 6 size _ _ _ (v2_sized p tag size r) l third in
    let (run, served) = cons-IsRun_from p q 4 tag _ _ _ (v2_found p w r) refl second in
    (q, run, served, refl, r.no_ff)
