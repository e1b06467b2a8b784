-- ===== src/SlaveStream/Runs.antt =====
-- The answers over all that happens to a stream of slave/stream.js.
-- The calls of `listen`.
use stream_machine.Prelude.Tests.{either_branch}
use mathlib.Core.List.{append_assoc}
use stream_machine.SlaveStream.{
  Input, SlaveStream, asks_key, asks_source, disconnect, disconnect_all, disconnect_listener,
  get_stream_key, has_listener, kbytes_of, key_from_source, key_of, key_told, leaves, loads, logged,
  not_found, or_zero, react, react_all, record_listen, records, remove_listener, source_init,
  source_loaded, starts_listening, stops_listening, time_out, times_out, uses,
}
use stream_machine.SlaveStream.Answers.{
  HasAnswered, IsInTime, answers, answers-append, ids_from, listen-HasAnswered, silent-HasAnswered,
  source_init-HasAnswered, use_source-HasAnswered,
}
use stream_machine.Prelude.{
  ◌&&◌, ◌+◌, ◌++◌, Bool, List, Option, [], ap, arith, false, inl, none, not, refl, some, suc, sym,
  true, zero, ℕ, ◌∙◌, ◌∷◌, ◌≡◌,
}

abbrev pub new_calls : Input → ℕ
new_calls starts_listening = 1
new_calls _ = 0

abbrev pub calls : List Input → ℕ
calls [] = 0
calls (i ∷ is) = new_calls i + calls is

abbrev pub is_disconnect : Input → Bool
is_disconnect leaves = true
is_disconnect _ = false

abbrev pub stays : List Input → Bool
stays [] = true
stays (i ∷ is) = not (is_disconnect i) && stays is

answers-disconnect_all : (ls : List ℕ) → answers (disconnect_all ls) ≡ []
unfolding disconnect_all
answers-disconnect_all [] = refl
answers-disconnect_all (l ∷ ls) = answers-disconnect_all ls

get_stream_key-HasAnswered :
    (k : ℕ) (s : SlaveStream) → IsInTime s → HasAnswered s 0 (get_stream_key k s)
unfolding get_stream_key key_of key_from_source
get_stream_key-HasAnswered k s v = elim s.stream_key as (λ o. HasAnswered s 0 (key_of o k s)) [
  | none ↦ elim s.source as (λ o. HasAnswered s 0 (key_from_source o k s)) [
    | none ↦ silent-HasAnswered s _ [] refl refl refl refl v
    | some src ↦ silent-HasAnswered s s (asks_source src k ∷ []) refl refl refl refl v
  ]
  | some key ↦ silent-HasAnswered s s (key_told k key ∷ []) refl refl refl refl v
]

disconnect_listener-HasAnswered :
    (id : ℕ) (s : SlaveStream) → IsInTime s → HasAnswered s 0 (disconnect_listener id s)
unfolding disconnect_listener
disconnect_listener-HasAnswered id s v =
    either_branch (HasAnswered s 0) (has_listener id s.lmeta) _ _
      (λ there.
        silent-HasAnswered s (record s { lmeta = remove_listener id s.lmeta }) [] refl refl refl
          refl v)
      (λ gone. silent-HasAnswered s s (not_found id ∷ []) refl refl refl refl v)

record_listen-HasAnswered :
    (id : ℕ) (bytes kbytes : Option ℕ) (s : SlaveStream)
    → IsInTime s
    → HasAnswered s 0 (record_listen id bytes kbytes s)
unfolding record_listen
record_listen-HasAnswered id bytes kbytes s v =
    let sent = or_zero (kbytes_of bytes kbytes) in
    silent-HasAnswered s (record s { total_kbytes = s.total_kbytes + sent }) _
      (either_branch (λ es. answers es ≡ []) (has_listener id s.lmeta) (logged id sent ∷ []) []
        (λ there. refl) (λ gone. refl))
      refl refl refl v

both_hold : (a b : Bool) → (not a && b) ≡ true → (a ≡ false) × (b ≡ true)
both_hold true b h = absurd (cc h)
both_hold false b h = (refl, h)

module _ (grants : ℕ → Bool) where
  time_out-HasAnswered : (s : SlaveStream) → IsInTime s → HasAnswered s 0 (time_out grants s)
  unfolding time_out
  time_out-HasAnswered s v =
      either_branch (HasAnswered s 0) s.timer_runs
        (source_init grants (record s { timer_runs = false })) (s, [])
        (λ runs.
          let fired = source_init-HasAnswered grants (record s { timer_runs = false }) in
          record {
            in_order = fired.in_order;
            numbered = fired.numbered;
            counted = fired.counted;
            in_time = fired.in_time;
          })
        (λ stopped. silent-HasAnswered s s [] refl refl refl refl v)

  react-HasAnswered :
      (s : SlaveStream) (i : Input)
      → is_disconnect i ≡ false
      → IsInTime s
      → HasAnswered s (new_calls i) (react grants s i)
  unfolding react source_loaded
  react-HasAnswered s starts_listening here v = listen-HasAnswered grants s v
  react-HasAnswered s times_out here v = time_out-HasAnswered s v
  react-HasAnswered s loads here v = source_init-HasAnswered grants s
  react-HasAnswered s leaves here v = absurd (cc here)
  react-HasAnswered s (uses src) here v = use_source-HasAnswered src s v
  react-HasAnswered s (stops_listening id) here v = disconnect_listener-HasAnswered id s v
  react-HasAnswered s (asks_key k) here v = get_stream_key-HasAnswered k s v
  react-HasAnswered s (records id bytes kbytes) here v =
      record_listen-HasAnswered id bytes kbytes s v

  ids_from-add :
      (first m n : ℕ) → ids_from first (m + n) ≡ ids_from first m ++ ids_from (first + m) n
  ids_from-add first zero n =
      let none_before : 0 + n ≡ n = omega arith in
      let at_first : first ≡ first + 0 = omega arith in
      ap (ids_from first) none_before ∙ ap (λ k. ids_from k n) at_first
  ids_from-add first (suc m) n =
      let more : suc m + n ≡ suc (m + n) = omega arith in
      let next : first + 1 + m ≡ first + suc m = omega arith in
      ap (ids_from first) more
      ∙ ap (λ l. first ∷ l) (ids_from-add (first + 1) m n)
      ∙ ap (λ k. ids_from first (suc m) ++ ids_from k n) next

  react_all-HasAnswered :
      (is : List Input) (s : SlaveStream)
      → stays is ≡ true
      → IsInTime s
      → HasAnswered s (calls is) (react_all grants s is)
  unfolding react_all
  react_all-HasAnswered [] s here v = silent-HasAnswered s s [] refl refl refl refl v
  react_all-HasAnswered (i ∷ is) s here v =
      let (not_now, not_later) = both_hold (is_disconnect i) (stays is) here in
      let one = react-HasAnswered s i not_now v in
      let s' = (react grants s i).0 in
      let more = react_all-HasAnswered is s' not_later one.in_time in
      let now = answers (react grants s i).1 in
      let out = react_all grants s' is in
      record {
        in_order =
            ap (λ l. l ++ out.0.waiting) (answers-append (react grants s i).1 out.1)
            ∙ append_assoc now (answers out.1) out.0.waiting
            ∙ ap (λ l. now ++ l) more.in_order
            ∙ sym (append_assoc now s'.waiting _)
            ∙ ap (λ l. l ++ ids_from s'.next_id (calls is)) one.in_order
            ∙ append_assoc s.waiting _ _
            ∙ ap (λ k. s.waiting ++ (ids_from s.next_id (new_calls i) ++ ids_from k (calls is)))
                one.numbered
            ∙ ap (λ l. s.waiting ++ l) (sym (ids_from-add s.next_id (new_calls i) (calls is)));
        numbered = omega (arith, more.numbered, one.numbered);
        counted = omega (arith, more.counted, one.counted);
        in_time = more.in_time;
      }

  -- When the stream is disconnected, those who wait are forgotten: what happens afterwards to such a
  -- stream gives answers only to later calls, as long as it is not disconnected again.
  pub disconnect-forgets_waiting :
      (s : SlaveStream) (is : List Input)
      → stays is ≡ true
      → let out = react_all grants (disconnect s).0 is in
        (answers (disconnect s).1 ≡ [])
        × (answers out.1 ++ out.0.waiting ≡ ids_from s.next_id (calls is))
  unfolding disconnect
  disconnect-forgets_waiting s is here =
      let v = react_all-HasAnswered is (disconnect s).0 here (inl refl) in
      (answers-disconnect_all s.lmeta, v.in_order)
