-- ===== src/FrameChunker/Drift.antt =====
-- The chunks keep to their duration, and their timestamps to the durations.
use stream_machine.Prelude.Lists.{length, length-append}
use stream_machine.FrameChunker.{
  FrameChunker, FrameObj, RawChunk, emit_chunk, transform, new_chunker, transform_all,
}
use stream_machine.Prelude.Tests.{Bool-cases, ltb, ltb→lt}
use stream_machine.Prelude.Int.{◌+ℤ◌, ltb_ℤ, pos, sub_ℕ}
use stream_machine.Prelude.{
  ◌*◌, ◌+◌, List, [], arith, inl, inr, suc, ℕ, ◌∷◌, ◌≡◌, ◌≤◌, refl, ◌++◌, ◌<◌, subst, ◌∙◌,
}

abbrev pub durations_of : List RawChunk → ℕ
durations_of [] = 0
durations_of (c ∷ cs) = c.duration + durations_of cs

abbrev pub AllShort : ℕ → List FrameObj → Type 0
AllShort m [] = Unit
AllShort m (o ∷ os) = (o.duration ≤ m) × AllShort m os

-- After `n` chunks of a total duration, with frames of at most `m`.
record Drift (m : ℕ) (c : FrameChunker) (n total : ℕ) : Type 0 where
  short : m ≤ c.duration
  on_target : c.target ≡ sub_ℕ (c.duration * suc n) total
  within : total + c.queue_duration ≤ c.duration * suc n
  not_behind : c.duration * n ≤ total
  not_ahead : total ≤ c.duration * n + m

sub-add : (a t d q : ℕ) → sub_ℕ a t +ℤ sub_ℕ d q ≡ sub_ℕ (a + d) (t + q)
sub-add a t d q = ground arith

sub_eq : {a a' b b' : ℕ} → a ≡ a' → b ≡ b' → sub_ℕ a b ≡ sub_ℕ a' b'
sub_eq e f = rw (e, f) refl

mul_suc : (d n : ℕ) → d * suc n + d ≡ d * suc (n + 1)
mul_suc d n = grind arith

Drift-same :
    {m n n' t t' : ℕ} {c : FrameChunker} → n ≡ n' → t ≡ t' → Drift m c n t → Drift m c n' t'
Drift-same {m} {n} {n'} {t} {t'} {c} e f d =
    subst (λ k. Drift m c k t') e (subst (λ k. Drift m c n k) f d)

emitted-Drift :
    (u m : ℕ) (c : FrameChunker) (o : FrameObj) (n total : ℕ)
    → o.duration ≤ m
    → Drift m c n total
    → let q = c.queue_duration + o.duration in
      c.duration * suc n < total + q
      → Drift m
          (emit_chunk u
            (record c { chunk_queue = c.chunk_queue ++ o ∷ []; queue_duration = q })
            o.stream_key).0
          (n + 1)
          (total + q)
unfolding emit_chunk
emitted-Drift u m c o n total h d full = record {
  short = d.short;
  on_target =
      rw
        (d.on_target, sub-add (c.duration * suc n) total c.duration (c.queue_duration + o.duration))
        (sub_eq (mul_suc c.duration n) refl);
  within = omega (arith, mul_suc c.duration n, d.within, h, d.short);
  not_behind = grind (arith, full);
  not_ahead = grind (arith, d.within, h);
}

transform-Drift :
    (u m : ℕ) (c : FrameChunker) (o : FrameObj) (n total : ℕ)
    → o.duration ≤ m
    → Drift m c n total
    → let r = transform u c o in Drift m r.0 (n + length r.1) (total + durations_of r.1)
unfolding transform emit_chunk
transform-Drift u m c o n total h d =
    let q = c.queue_duration + o.duration in
    let test : ltb_ℤ c.target (pos q) ≡ ltb (c.duration * suc n) (total + q) =
      rw d.on_target (let w = d.within in ground arith) in
    elim (Bool-cases (ltb (c.duration * suc n) (total + q))) [
      | inl full ↦
          rw (test, full)
            (Drift-same refl (omega arith) (emitted-Drift u m c o n total h d (ltb→lt _ _ full)))
      | inr waits ↦
          rw (test, waits)
            (Drift-same {n = n} {t = total} (omega arith) (omega arith) (record {
              short = d.short;
              on_target = d.on_target;
              within = ground (arith, waits);
              not_behind = d.not_behind;
              not_ahead = d.not_ahead;
            }))
    ]

pub durations_of-append :
    (xs ys : List RawChunk) → durations_of (xs ++ ys) ≡ durations_of xs + durations_of ys
durations_of-append [] ys = omega arith
durations_of-append (x ∷ xs) ys = omega (arith, durations_of-append xs ys)

transform_all-Drift :
    (u m : ℕ) (os : List FrameObj) (c : FrameChunker) (n total : ℕ)
    → AllShort m os
    → Drift m c n total
    → let r = transform_all u c os in Drift m r.0 (n + length r.1) (total + durations_of r.1)
unfolding transform_all
transform_all-Drift u m [] c n total h d = Drift-same (omega arith) (omega arith) d
transform_all-Drift u m (o ∷ os) c n total (h, hs) d =
    let r = transform u c o in
    let rest = transform_all u r.0 os in
    let d' = transform-Drift u m c o n total h d in
    let d'' = transform_all-Drift u m os r.0 (n + length r.1) (total + durations_of r.1) hs d' in
    Drift-same (omega (arith, length-append r.1 rest.1))
      (omega (arith, durations_of-append r.1 rest.1)) d''

Drift-bounds :
    (m n t : ℕ) (c : FrameChunker)
    → Drift m c (0 + n) (0 + t)
    → (c.duration * n ≤ t) × (t ≤ c.duration * n + m)
Drift-bounds m n t c d =
    let e : Drift m c n t = Drift-same {c = c} (omega arith) (omega arith) d in
    (e.not_behind, e.not_ahead)

duration-transform :
    (u : ℕ) (c : FrameChunker) (o : FrameObj) → (transform u c o).0.duration ≡ c.duration
unfolding transform emit_chunk
duration-transform u c o =
    elim (Bool-cases (ltb_ℤ c.target (pos (c.queue_duration + o.duration)))) [
      | inl full ↦ rw full refl
      | inr waits ↦ rw waits refl
    ]

duration-transform_all :
    (u : ℕ) (os : List FrameObj) (c : FrameChunker) → (transform_all u c os).0.duration ≡ c.duration
unfolding transform_all
duration-transform_all u [] c = refl
duration-transform_all u (o ∷ os) c =
    duration-transform_all u os (transform u c o).0 ∙ duration-transform u c o

-- With frames no longer than a bound, which is at most the wanted duration, the first chunks of a new
-- chunker last, together, at least their number times the wanted duration, and at most one
-- frame more.
pub transform_all-duration :
    (u m duration initial_time : ℕ) (os : List FrameObj)
    → m ≤ duration
    → AllShort m os
    → let r = transform_all u (new_chunker duration initial_time) os in
      (duration * length r.1 ≤ durations_of r.1) × (durations_of r.1 ≤ duration * length r.1 + m)
unfolding new_chunker
transform_all-duration u m duration t0 os short h =
    let c = new_chunker duration t0 in
    let start : Drift m c 0 0 = record {
      short = short;
      on_target = ground arith;
      within = omega arith;
      not_behind = omega arith;
      not_ahead = omega arith;
    } in
    let d = transform_all-Drift u m os c 0 0 h start in
    let same : (transform_all u c os).0.duration ≡ duration = duration-transform_all u os c in
    let (low, high) = Drift-bounds m _ _ (transform_all u c os).0 d in
    (rw same at low, rw same at high)
