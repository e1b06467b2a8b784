-- ===== src/Aac/Parser/Resync.antt =====
-- The search for an AAC frame after a byte 0xFF that begins none.
use stream_machine.Aac.Parser.Starting.{IsSearching, after_ff, first_byte}
use stream_machine.Aac.Header.{parse_frame}
use stream_machine.Mp3.Parser.{is_none}
use stream_machine.Aac.Parser.{
  Aac, audio_token, head_or_zero, search, search_or_finish, second_byte, token, try_header,
}
use stream_machine.Prelude.Tests.{◌==◌}
use stream_machine.Prelude.{
  ◌%◌, ◌/◌, [], false, none, some, true, ℕ, ◌∷◌, ◌≡◌, arith, refl, ap, sym, ◌∙◌, ◌<◌,
}
use stream_machine.Strtok.{IsRun, cons-IsRun, done-IsRun}

-- The search after a second byte of another layer than 0.
false_sync :
    (p : Aac) (b : ℕ)
    → IsSearching p
    → p.byte_two ≡ none
    → p.got_id3 ≡ 0
    → b / 16 ≡ 15
    → b < 255
    → 0 < b / 2 % 4
    → token (after_ff p) (b ∷ []) ≡ (record p { byte_two = some b; got_ff = false }, [], 1)
unfolding token audio_token second_byte search_or_finish search is_none head_or_zero
false_sync p b r fresh no_id3 sync last layer =
    let is_f : (b / 16 == 15) ≡ true = ground arith in
    let has_layer : (b / 2 % 4 == 0) ≡ false = ground arith in
    let no_sync : (b == 255) ≡ false = ground arith in
    let no_i : (b == 73) ≡ false = ground arith in
    simp
      (r.no_id3v2, r.no_rest, r.no_frame, r.unsynced, fresh, no_id3, is_f, has_layer, no_sync, no_i)

stale_byte :
    (p : Aac) (b c : ℕ)
    → IsSearching p
    → token (record p { byte_two = some b; got_ff = true }) (c ∷ [])
      ≡ (record p { byte_two = none; got_ff = false }, [], 1)
unfolding token audio_token try_header parse_frame is_none
stale_byte p b c r = simp (r.no_id3v2, r.no_rest, r.no_frame, r.unsynced)

-- The parser looks for a frame, with no second byte and no ID3 begun. After 0xFF and a second byte
-- below 255 with the sync bits but a layer that is not 0, the next 0xFF and any byte behind it, a
-- frame's second byte too, are dropped: the parser asks for these four bytes one by one, gives no
-- event and is where it was.
pub false_sync-loses_frame :
    (p : Aac) (b c : ℕ)
    → IsSearching p
    → p.byte_two ≡ none
    → p.got_id3 ≡ 0
    → b / 16 ≡ 15
    → b < 255
    → 0 < b / 2 % 4
    → IsRun token p 1 ((255 ∷ []) ∷ (b ∷ []) ∷ (255 ∷ []) ∷ (c ∷ []) ∷ []) p [] 1
false_sync-loses_frame p b c r fresh no_id3 sync last layer =
    let p' : Aac = record p { byte_two = some b; got_ff = false } in
    let r' : IsSearching p' = record {
      no_id3v2 = r.no_id3v2;
      no_rest = r.no_rest;
      no_frame = r.no_frame;
      unsynced = r.unsynced;
      no_ff = refl;
    } in
    let back : record p { byte_two = none; got_ff = false } ≡ p =
      λ i. record p { byte_two = sym fresh i; got_ff = sym r.no_ff i } in
    let fourth =
      cons-IsRun token (after_ff p') p 1 (c ∷ []) [] [] _
        (stale_byte p b c r ∙ ap (λ (q : Aac). (q, [], 1)) back) refl (done-IsRun token p 1) in
    let third = cons-IsRun token p' p 1 (255 ∷ []) _ _ _ (first_byte p' r') refl fourth in
    let second =
      cons-IsRun token (after_ff p) p 1 (b ∷ []) _ _ _
        (false_sync p b r fresh no_id3 sync last layer) refl third in
    cons-IsRun token p p 1 (255 ∷ []) _ _ _ (first_byte p r) refl second
