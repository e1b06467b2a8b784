-- ===== src/SlaveStream/Answers.antt =====
-- The answers to the listeners of slave/stream.js.
use mathlib.Core.List.{append-nil}
use stream_machine.SlaveStream.{
  Effect, SlaveStream, admit, admit_all, ask_all, asks_rewind, asks_source, disconnects,
  emit_source, is_same, key_told, listen, listens, logged, not_found, refused, source_init,
  use_source,
}
use stream_machine.Prelude.Tests.{Bool-cases, either_branch}
use stream_machine.Prelude.{
  ◌+◌, ◌++◌, Bool, List, [], ap, arith, false, inl, inr, refl, suc, sym, true, zero, ℕ, ◌∙◌, ◌∷◌,
  ◌≡◌, ◌⊎◌, some,
}

-- The listeners that got an answer.
abbrev pub answers : List Effect → List ℕ
answers [] = []
answers (listens id ∷ es) = id ∷ answers es
answers (refused id ∷ es) = id ∷ answers es
answers (e ∷ es) = answers es

pub answers-append : (xs ys : List Effect) → answers (xs ++ ys) ≡ answers xs ++ answers ys
answers-append [] ys = refl
answers-append (listens id ∷ xs) ys = ap (λ l. id ∷ l) (answers-append xs ys)
answers-append (refused id ∷ xs) ys = ap (λ l. id ∷ l) (answers-append xs ys)
answers-append (key_told a b ∷ xs) ys = answers-append xs ys
answers-append (asks_source a b ∷ xs) ys = answers-append xs ys
answers-append (asks_rewind a ∷ xs) ys = answers-append xs ys
answers-append (disconnects a ∷ xs) ys = answers-append xs ys
answers-append (not_found a ∷ xs) ys = answers-append xs ys
answers-append (logged a b ∷ xs) ys = answers-append xs ys

abbrev pub ids_from : ℕ → ℕ → List ℕ
ids_from first zero = []
ids_from first (suc n) = first ∷ ids_from (first + 1) n

-- Nobody waits for a source that is not loading.
abbrev pub IsInTime : SlaveStream → Type 0
IsInTime s = (s.waiting ≡ []) ⊎ (s.initializing ≡ true)

-- A step that gives the answers in order, to those who waited and to so many new ones.
pub record HasAnswered (s : SlaveStream) (n : ℕ) (out : SlaveStream × List Effect) : Type 0 where
  pub in_order : answers out.1 ++ out.0.waiting ≡ s.waiting ++ ids_from s.next_id n
  pub numbered : out.0.next_id ≡ s.next_id + n
  pub counted : out.0.total_connections ≡ s.total_connections + n
  pub in_time : IsInTime out.0

pub silent-HasAnswered :
    (s s' : SlaveStream) (es : List Effect)
    → answers es ≡ []
    → s'.waiting ≡ s.waiting
    → s'.next_id ≡ s.next_id
    → s'.total_connections ≡ s.total_connections
    → IsInTime s'
    → HasAnswered s 0 (s', es)
silent-HasAnswered s s' es silent waiting next total in_time = record {
  in_order = ap (λ l. l ++ s'.waiting) silent ∙ waiting ∙ sym (append-nil s.waiting);
  numbered = omega (arith, next);
  counted = omega (arith, total);
  in_time = in_time;
}

answers-ask_all : (src : ℕ) (ks : List ℕ) → answers (ask_all src ks) ≡ []
unfolding ask_all
answers-ask_all src [] = refl
answers-ask_all src (k ∷ ks) = answers-ask_all src ks

pub use_source-HasAnswered :
    (src : ℕ) (s : SlaveStream) → IsInTime s → HasAnswered s 0 (use_source src s)
unfolding use_source emit_source
use_source-HasAnswered src s v =
    let silent = answers-ask_all src s.key_waiting in
    either_branch (HasAnswered s 0) (is_same s.source src) (s, [])
      (emit_source src (record s { source = some src }))
      (λ same. silent-HasAnswered s s [] refl refl refl refl v)
      (λ other.
        either_branch (HasAnswered s 0) s.source_seen _ _
          (λ seen. silent-HasAnswered s _ _ silent refl refl refl v)
          (λ first. silent-HasAnswered s _ _ silent refl refl refl (inr refl)))

module _ (grants : ℕ → Bool) where
  record Kept (ids : List ℕ) (s : SlaveStream) (out : SlaveStream × List Effect) : Type 0 where
    answered : answers out.1 ≡ ids
    waiting : out.0.waiting ≡ s.waiting
    next_id : out.0.next_id ≡ s.next_id
    total : out.0.total_connections ≡ s.total_connections

  admit-Kept : (id : ℕ) (s : SlaveStream) → Kept (id ∷ []) s (admit grants id s)
  unfolding admit
  admit-Kept id s = elim (Bool-cases (grants id)) [
    | inl granted ↦
        rw granted (record { answered = refl; waiting = refl; next_id = refl; total = refl })
    | inr denied ↦
        rw denied (record { answered = refl; waiting = refl; next_id = refl; total = refl })
  ]

  admit_all-Kept : (ids : List ℕ) (s : SlaveStream) → Kept ids s (admit_all grants ids s)
  unfolding admit_all
  admit_all-Kept [] s = record { answered = refl; waiting = refl; next_id = refl; total = refl }
  admit_all-Kept (id ∷ ids) s =
      let one = admit-Kept id s in
      let more = admit_all-Kept ids (admit grants id s).0 in
      record {
        answered =
            answers-append (admit grants id s).1 _
            ∙ ap (λ l. l ++ answers (admit_all grants ids (admit grants id s).0).1) one.answered
            ∙ ap (λ l. id ∷ l) more.answered;
        waiting = more.waiting ∙ one.waiting;
        next_id = more.next_id ∙ one.next_id;
        total = more.total ∙ one.total;
      }

  pub source_init-HasAnswered : (s : SlaveStream) → HasAnswered s 0 (source_init grants s)
  unfolding source_init
  source_init-HasAnswered s =
      let v = admit_all-Kept s.waiting (record s { initializing = false; waiting = [] }) in
      record {
        in_order =
            ap (λ l. l ++ (source_init grants s).0.waiting) v.answered
            ∙ ap (λ l. s.waiting ++ l) v.waiting;
        numbered = omega (arith, v.next_id);
        counted = omega (arith, v.total);
        in_time = inl v.waiting;
      }

  pub source_init-waiting : (s : SlaveStream) → (source_init grants s).0.waiting ≡ []
  unfolding source_init
  source_init-waiting s =
      (admit_all-Kept s.waiting (record s { initializing = false; waiting = [] })).waiting

  pub listen-HasAnswered : (s : SlaveStream) → IsInTime s → HasAnswered s 1 (listen grants s)
  unfolding listen
  listen-HasAnswered s v =
      let s' = record s { next_id = s.next_id + 1; total_connections = s.total_connections + 1 } in
      let one = admit-Kept s.next_id s' in
      either_branch (HasAnswered s 1) s.initializing
        (record s' { waiting = s.waiting ++ s.next_id ∷ [] }, []) (admit grants s.next_id s')
        (λ waits. record { in_order = refl; numbered = refl; counted = refl; in_time = inr waits })
        (λ ready.
          let nobody : s.waiting ≡ [] = elim v [
            | inl e ↦ e
            | inr still ↦ absurd (cc (ready, still))
          ] in
          record {
            in_order =
                ap (λ l. l ++ (admit grants s.next_id s').0.waiting) one.answered
                ∙ ap (λ l. s.next_id ∷ l) (one.waiting ∙ nobody)
                ∙ ap (λ l. l ++ s.next_id ∷ []) (sym nobody);
            numbered = one.next_id;
            counted = one.total;
            in_time = inl (one.waiting ∙ nobody);
          })
