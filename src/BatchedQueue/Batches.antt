-- ===== src/BatchedQueue/Batches.antt =====
-- The batches are the objects, in order, and none is too long or waits too long.
use stream_machine.Prelude.Tests.{◌==◌, Bool-cases, Option-cases, leb}
use stream_machine.Prelude.Lists.{length, length-append}
use stream_machine.BatchedQueue.{
  BatchedQueue, Input, clock, flush_all, object, write_queue, on_time, set_timer, transform, react,
  react_all,
}
use stream_machine.Prelude.{
  ◌++◌, ◌<◌, List, [], ap, arith, none, refl, sym, ℕ, ◌∷◌, ◌≡◌, ◌≤◌, inl, inr, ◌∙◌, subst,
}
use mathlib.Core.List.{append_assoc}

module _ {ℓ} {A : Type ℓ} where
  abbrev pub objects_of : List (Input A) → List A
  objects_of [] = []
  objects_of (object now a ∷ is) = a ∷ objects_of is
  objects_of (clock now ∷ is) = objects_of is
  objects_of (flush_all ∷ is) = objects_of is

  abbrev pub joined : List (List A) → List A
  joined [] = []
  joined (b ∷ bs) = b ++ joined bs

  -- Each batch has an object, and at most as many as the size.
  abbrev pub AreBatches : ℕ → List (List A) → Type 0
  AreBatches n [] = Unit
  AreBatches n (b ∷ bs) = (0 < length b) × (length b ≤ n) × AreBatches n bs

  -- There is room, and what waits has a timer.
  pub record IsValid (b : BatchedQueue A) : Type 0 where
    pub room : length b.queue < b.size
    pub timed : (b.timer ≡ none) → length b.queue ≡ 0

  joined-append : (xs ys : List (List A)) → joined (xs ++ ys) ≡ joined xs ++ joined ys
  joined-append [] ys = refl
  joined-append (x ∷ xs) ys =
      rw (joined-append xs ys) (sym (append_assoc x (joined xs) (joined ys)))

  -- What one input leads to.
  abbrev IsReaction : BatchedQueue A → List A → BatchedQueue A × List (List A) → Type ℓ
  IsReaction b new (b', es) =
      IsValid b'
      × (b'.size ≡ b.size)
      × AreBatches b.size es
      × (joined es ++ b'.queue ≡ b.queue ++ new)

  empty_lem : (xs : List A) → length xs ≡ 0 → xs ≡ []
  empty_lem [] h = refl
  empty_lem (x ∷ xs) h = absurd (omega (arith, h))

  append_nil : (xs : List A) → xs ++ [] ≡ xs
  append_nil [] = refl
  append_nil (x ∷ xs) = ap (λ ys. x ∷ ys) (append_nil xs)

  write_queue-IsReaction :
      (b : BatchedQueue A) → 0 < b.size → length b.queue ≤ b.size → IsReaction b [] (write_queue b)
  unfolding write_queue
  write_queue-IsReaction b p h =
      let cleared : IsValid (record b { queue = []; timer = none }) = record {
        room = p;
        timed = λ _. refl;
      } in
      elim (Bool-cases (length b.queue == 0)) [
        | inl none_wait ↦
            let empty : b.queue ≡ [] = empty_lem b.queue (ground arith) in
            rw none_wait (cleared, refl, tt, sym (append_nil b.queue ∙ empty))
        | inr some_wait ↦
            rw some_wait (cleared, refl, (ground arith, h, tt), append_nil (b.queue ++ []))
      ]

  set_timer-IsValid :
      (now : ℕ) (b : BatchedQueue A) → length b.queue < b.size → IsValid (set_timer now b)
  unfolding set_timer
  set_timer-IsValid now b h = elim (Option-cases b.timer) [
    | inl off ↦ rw (off, set_timer) (record { room = h; timed = λ e. cc })
    | inr (due, on) ↦
        rw (on, set_timer) (record { room = h; timed = λ e. absurd (let bad = sym on ∙ e in cc) })
  ]

  set_timer_keeps :
      (now : ℕ) (b : BatchedQueue A)
      → ((set_timer now b).queue ≡ b.queue) × ((set_timer now b).size ≡ b.size)
  unfolding set_timer
  set_timer_keeps now b = elim (Option-cases b.timer) [
    | inl off ↦ rw (off, set_timer) (refl, refl)
    | inr (due, on) ↦ rw (on, set_timer) (refl, refl)
  ]

  transform-IsReaction :
      (now : ℕ) (b : BatchedQueue A) (a : A) → IsValid b → IsReaction b (a ∷ []) (transform now b a)
  unfolding transform
  transform-IsReaction now b a v =
      let b' = record b { queue = b.queue ++ a ∷ [] } in
      let longer = length-append b.queue (a ∷ []) in
      elim (Bool-cases (leb b.size (length (b.queue ++ a ∷ [])))) [
        | inl full ↦
            let (valid, size, batches, all) =
              write_queue-IsReaction b' (omega (arith, v.room)) (omega (arith, longer, v.room)) in
            rw full (valid, size, batches, all ∙ append_nil (b.queue ++ a ∷ []))
        | inr fits ↦
            let (queue, size) = set_timer_keeps now b' in
            rw fits (set_timer-IsValid now b' (ground (arith, fits)), size, tt, queue)
      ]

  on_time-IsReaction : (now : ℕ) (b : BatchedQueue A) → IsValid b → IsReaction b [] (on_time now b)
  unfolding on_time
  on_time-IsReaction now b v = elim (Option-cases b.timer) [
    | inl off ↦ rw (off, on_time) (v, refl, tt, sym (append_nil b.queue))
    | inr (due, on) ↦ elim (Bool-cases (leb due now)) [
      | inl passed ↦
          rw (on, on_time, passed)
            (write_queue-IsReaction b (omega (arith, v.room)) (omega (arith, v.room)))
      | inr early ↦ rw (on, on_time, early) (v, refl, tt, sym (append_nil b.queue))
    ]
  ]

  abbrev new_objects : Input A → List A
  new_objects (object now a) = a ∷ []
  new_objects (clock now) = []
  new_objects flush_all = []

  react-IsReaction :
      (b : BatchedQueue A) (i : Input A) → IsValid b → IsReaction b (new_objects i) (react b i)
  unfolding react
  react-IsReaction b (object now a) v = transform-IsReaction now b a v
  react-IsReaction b (clock now) v = on_time-IsReaction now b v
  react-IsReaction b flush_all v =
      write_queue-IsReaction b (omega (arith, v.room)) (omega (arith, v.room))

  objects_of-cons :
      (i : Input A) (is : List (Input A)) → objects_of (i ∷ is) ≡ new_objects i ++ objects_of is
  objects_of-cons (object now a) is = refl
  objects_of-cons (clock now) is = refl
  objects_of-cons flush_all is = refl

  AreBatches-append :
      (n : ℕ) (xs ys : List (List A)) → AreBatches n xs → AreBatches n ys → AreBatches n (xs ++ ys)
  AreBatches-append n [] ys h k = k
  AreBatches-append n (x ∷ xs) ys (p, q, h) k = (p, q, AreBatches-append n xs ys h k)

  -- The batches of any history, with what still waits behind them, are the objects that waited and
  -- came, in order; every batch has between one object and the size, and what waits is less than
  -- the size and has a timer.
  pub react_all-batches :
      (is : List (Input A)) (b : BatchedQueue A)
      → IsValid b
      → let r = react_all b is in
        IsValid r.0
        × (r.0.size ≡ b.size)
        × AreBatches b.size r.1
        × (joined r.1 ++ r.0.queue ≡ b.queue ++ objects_of is)
  unfolding react_all
  react_all-batches [] b v = (v, refl, tt, sym (append_nil b.queue))
  react_all-batches (i ∷ is) b v =
      let r = react b i in
      let rest = react_all r.0 is in
      let (valid, size, batches, all) = react-IsReaction b i v in
      let (valid', size', batches', all') = react_all-batches is r.0 valid in
      (
        valid',
        size' ∙ size,
        AreBatches-append b.size r.1 rest.1 batches
            (subst (λ n. AreBatches n rest.1) size batches'),
        ap (λ os. os ++ rest.0.queue) (joined-append r.1 rest.1)
            ∙ append_assoc (joined r.1) (joined rest.1) rest.0.queue
            ∙ ap (λ os. joined r.1 ++ os) all'
            ∙ sym (append_assoc (joined r.1) r.0.queue (objects_of is))
            ∙ ap (λ os. os ++ objects_of is) all
            ∙ append_assoc b.queue (new_objects i) (objects_of is)
            ∙ ap (λ os. b.queue ++ os) (sym (objects_of-cons i is)),
      )
