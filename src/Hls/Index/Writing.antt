-- ===== src/Hls/Index/Writing.antt =====
-- The Writer of hls_index.js sends the playlist, and as many bytes as it has said.
use stream_machine.Prelude.Lists.{drop, length, cons_of_pos_length, length-drop, length-append}
use mathlib.Core.List.{append_assoc, append-nil}
use stream_machine.Hls.Index.{Writer, read, read_entries, new_writer}
use stream_machine.Prelude.Tests.{◌==◌, Bool-cases, if◌then◌else◌, ltb}
use stream_machine.Prelude.{
  ◌+◌, ◌++◌, ◌<◌, Bool, List, Option, [], ap, arith, false, inl, inr, none, refl, some, suc, sym, ℕ,
  ◌∙◌, ◌∷◌, ◌≡◌, ◌≤◌, ◌-◌, zero, ◌*◌, true,
}

-- What is to be sent of the entries.
abbrev pub lines : List ℕ → List (List ℕ) → List ℕ
lines session [] = []
lines session (e ∷ es) = (e ++ session) ++ lines session es

abbrev pub concat_pushed : List (List ℕ) → List ℕ
concat_pushed [] = []
concat_pushed (b ∷ bs) = b ++ concat_pushed bs

-- Reading again and again, each time with a size, until it has ended.
abbrev pub read_all : List ℕ → Writer → Option Writer
read_all [] w = some w
read_all (size ∷ sizes) w =
    if w.ended then some w else elim (read size w) [ none ↦ none | some w' ↦ read_all sizes w' ]

-- What a run of the loop over entries, of which there is one, sends.
record Sent (session : List ℕ) (es : List (List ℕ)) (out : List ℕ × ℕ × Bool) : Type 0 where
  some_sent : 0 < out.1
  prefix : lines session es ≡ out.0 ++ lines session (drop out.1 es)
  within : out.1 ≤ length es
  all_sent : out.2 ≡ (out.1 == length es)

read_entries-Sent :
    (size sent : ℕ) (session e : List ℕ) (es : List (List ℕ))
    → (out : List ℕ × ℕ × Bool) × (read_entries size sent session (e ∷ es) ≡ some out)
      × Sent session (e ∷ es) out
unfolding read_entries
read_entries-Sent size sent session e [] = (
  _,
  refl,
  record { some_sent = omega arith; prefix = refl; within = omega arith; all_sent = refl },
)
read_entries-Sent size sent session e (f ∷ es) =
    let now = sent + length e + length session in
    let (out, eq, ih) = read_entries-Sent size now session f es in
    elim (Bool-cases (ltb size now)) [
      | inl over ↦ (
        (e ++ session, 1, false),
        rw over refl,
        record {
          some_sent = omega arith;
          prefix = refl;
          within = omega arith;
          all_sent = ground arith;
        },
      )
      | inr more ↦ (
        ((e ++ session) ++ out.0, suc out.1, out.2),
        rw (more, eq) refl,
        record {
          some_sent = omega arith;
          prefix =
              ap (λ r. (e ++ session) ++ r) ih.prefix ∙ sym (append_assoc (e ++ session) out.0 _);
          within = omega (arith, ih.within);
          all_sent = ih.all_sent ∙ ground arith;
        },
      )
    ]

drop-nil {ℓ} : {A : Type ℓ} (k : ℕ) → drop {A = A} k [] ≡ []
drop-nil zero = refl
drop-nil (suc k) = refl

drop-length {ℓ} : {A : Type ℓ} (xs : List A) → drop (length xs) xs ≡ []
drop-length [] = refl
drop-length (x ∷ xs) = drop-length xs

drop-add {ℓ} : {A : Type ℓ} (n m : ℕ) (xs : List A) → drop m (drop n xs) ≡ drop (n + m) xs
drop-add zero m xs = ap (λ k. drop k xs) (omega arith)
drop-add (suc n) m [] = let more : suc n + m ≡ suc (n + m) = omega arith in rw more (drop-nil m)
drop-add (suc n) m (x ∷ xs) =
    let more : suc n + m ≡ suc (n + m) = omega arith in rw more (drop-add n m xs)

concat-append :
    (bs : List (List ℕ)) (b : List ℕ) → concat_pushed (bs ++ b ∷ []) ≡ concat_pushed bs ++ b
concat-append [] b = append-nil b
concat-append (c ∷ cs) b =
    ap (λ r. c ++ r) (concat-append cs b) ∙ sym (append_assoc c (concat_pushed cs) b)

abbrev pub head_left : Bool → List ℕ → List ℕ
head_left sent head = if sent then [] else head

read-step :
    (head : List ℕ) (es : List (List ℕ)) (session : List ℕ) (size : ℕ) (n : ℕ) (sent : Bool)
    (before : List (List ℕ))
    → n < length es
    → concat_pushed before ++ (head_left sent head ++ lines session (drop n es))
      ≡ head ++ lines session es
    → (out : List ℕ × ℕ × Bool) × (read_entries size
          (length (head_left sent head))
          session
          (drop n es)
        ≡ some out)
      × (0 < out.1)
      × (n + out.1 ≤ length es)
      × (concat_pushed (before ++ (head_left sent head ++ out.0) ∷ [])
            ++ lines session (drop (n + out.1) es)
          ≡ head ++ lines session es)
      × (out.2 ≡ (n + out.1 == length es))
read-step head es session size n sent before h whole =
    let (e, rest, eq) = cons_of_pos_length (drop n es) (omega (arith, length-drop n es, h)) in
    let first = head_left sent head in
    let (out, ran, v) = read_entries-Sent size (length first) session e rest in
    let size_left : length (e ∷ rest) ≡ length es - n = ap length (sym eq) ∙ length-drop n es in
    let rest_of = ap (lines session) (ap (drop out.1) (sym eq) ∙ drop-add n out.1 es) in
    (
      out,
      ap (read_entries size (length first) session) eq ∙ ran,
      v.some_sent,
      omega (arith, v.within, size_left, h),
      ap (λ b. b ++ lines session (drop (n + out.1) es)) (concat-append before (first ++ out.0))
          ∙ append_assoc (concat_pushed before) (first ++ out.0) _
          ∙ ap (λ r. concat_pushed before ++ r)
              (append_assoc first out.0 _
                ∙ ap (λ r. first ++ r)
                    (ap (λ r. out.0 ++ r) (sym rest_of)
                      ∙ sym v.prefix
                      ∙ ap (lines session) (sym eq)))
          ∙ whole,
      v.all_sent ∙ ground (arith, size_left, h),
    )

read_all-ended : (sizes : List ℕ) (w : Writer) → w.ended ≡ true → read_all sizes w ≡ some w
read_all-ended [] w e = refl
read_all-ended (size ∷ sizes) w e = rw e refl

-- The bytes of the entries.
abbrev pub total_bytes : List (List ℕ) → ℕ
total_bytes [] = 0
total_bytes (e ∷ es) = length e + total_bytes es

length-lines :
    (session : List ℕ) (es : List (List ℕ))
    → length (lines session es) ≡ total_bytes es + length session * length es
length-lines session [] = omega arith
length-lines session (e ∷ es) =
    length-append (e ++ session) (lines session es)
    ∙ grind (arith, length-lines session es, length-append e session)

module _ (head : List ℕ) (es : List (List ℕ)) (session : List ℕ) (total : ℕ) where
  -- A writer at an entry.
  abbrev sending : ℕ → Bool → List (List ℕ) → Bool → Writer
  sending n sent before done = record {
    header_bytes = head;
    entries = es;
    session = session;
    length_said = length head + total + length session * length es;
    sent_header = sent;
    at_entry = n;
    pushed = before;
    ended = done;
  }

  -- What has been sent when the writer has ended.
  pub record Complete (w : Writer) : Type 0 where
    pub ended : w.ended ≡ true
    pub sent : concat_pushed w.pushed ≡ head ++ lines session es
    pub said : w.length_said ≡ length head + total + length session * length es

  read-sending :
      (size n : ℕ) (sent : Bool) (before : List (List ℕ)) (out : List ℕ × ℕ × Bool)
      → read_entries size (length (head_left sent head)) session (drop n es) ≡ some out
      → read size (sending n sent before false)
        ≡ some (sending (n + out.1) true (before ++ (head_left sent head ++ out.0) ∷ []) out.2)
  unfolding read
  read-sending size n sent before out e = rw e refl

  read_all-sends :
      (sizes : List ℕ) (n : ℕ) (sent : Bool) (before : List (List ℕ))
      → n < length es
      → concat_pushed before ++ (head_left sent head ++ lines session (drop n es))
        ≡ head ++ lines session es
      → length es - n ≤ length sizes
      → (w : Writer) × (read_all sizes (sending n sent before false) ≡ some w) × Complete w
  read_all-sends [] n sent before h whole enough = absurd (omega (arith, h, enough))
  read_all-sends (size ∷ sizes) n sent before h whole enough =
      let (out, ran, more, inside, whole', ending) =
        read-step head es session size n sent before h whole in
      let next = n + out.1 in
      let before' = before ++ (head_left sent head ++ out.0) ∷ [] in
      let one = read-sending size n sent before out ran in
      elim (Bool-cases (next == length es)) [
        | inl done ↦
            let at_end : drop next es ≡ [] =
              ap (λ k. drop k es) (ground (arith, done)) ∙ drop-length es in
            (
              sending next true before' true,
              rw (one, ending, done) (read_all-ended sizes (sending next true before' true) refl),
              record {
                ended = refl;
                sent =
                    sym (append-nil (concat_pushed before'))
                    ∙ ap (λ l. concat_pushed before' ++ lines session l) (sym at_end)
                    ∙ whole';
                said = refl;
              },
            )
        | inr going ↦
            rw (one, ending, going)
              (read_all-sends sizes next true before' (ground (arith, inside)) whole'
                (omega (arith, more, enough)))
      ]

  -- A writer of a playlist with an entry sends the head and then each entry with the session's text
  -- after it, and ends, after as many reads as there are entries at the most and whatever their
  -- sizes are. What it has sent is as long as `length` has said, if the length that it was given is
  -- the entries' own.
  pub new_writer-Complete :
      (sizes : List ℕ)
      → 0 < length es
      → length es ≤ length sizes
      → total ≡ total_bytes es
      → (w : Writer) × (read_all sizes (new_writer head es total session) ≡ some w)
        × Complete w
        × (length (concat_pushed w.pushed) ≡ w.length_said)
  unfolding new_writer
  new_writer-Complete sizes some_entry enough own =
      let (w, ran, v) = read_all-sends sizes 0 false [] some_entry refl (omega (arith, enough)) in
      let sent_bytes =
        ap length v.sent
        ∙ length-append head (lines session es)
        ∙ ap (λ n. length head + n) (length-lines session es) in
      (w, ran, v, omega (arith, sent_bytes, v.said, own))
