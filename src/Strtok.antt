-- ===== src/Strtok.antt =====
-- The library strtok2 as the parsers use it: it calls their function with a token of the length
-- that was wanted, and gets the length of the next. The parsers are js/src/streammachine/parsers.
use stream_machine.Prelude.Lists.{length}
use stream_machine.Prelude.{◌++◌, List, [], ap, refl, subst, ℕ, ◌∷◌, ◌≡◌}

module _ {S E : Type 0} (token : S → List ℕ → S × List E × ℕ) where
  -- Tokens one after the other: the state, the events, and the length wanted last.
  unfoldable pub run : S → ℕ → List (List ℕ) → S × List E × ℕ
  run p want [] = (p, [], want)
  run p want (v ∷ vs) =
      let (p', events, want') = token p v in
      let (q, more, last_want) = run p' want' vs in (q, events ++ more, last_want)

  -- Each token has the length that was wanted.
  abbrev pub AreServed : S → ℕ → List (List ℕ) → Type 0
  AreServed p want [] = Unit
  AreServed p want (v ∷ vs) =
      let (p', events, want') = token p v in (length v ≡ want) × AreServed p' want' vs

  -- What comes of the tokens, each of which has the length that is wanted.
  abbrev pub IsRun : S → ℕ → List (List ℕ) → S → List E → ℕ → Type 0
  IsRun p want vs q es n = (run p want vs ≡ (q, es, n)) × AreServed p want vs

  pub cons-IsRun :
      {n : ℕ} (p q : S) (want : ℕ) (v : List ℕ) (vs : List (List ℕ)) (es : List E)
      (r : S × List E × ℕ)
      → token p v ≡ r
      → length v ≡ want
      → IsRun r.0 r.2 vs q es n
      → IsRun p want (v ∷ vs) q (r.1 ++ es) n
  unfolding run
  cons-IsRun {n = n} p q want v vs es r e l =
      subst (λ r. IsRun r.0 r.2 vs q es n → IsRun p want (v ∷ vs) q (r.1 ++ es) n) e
        (λ (runs, served). (ap (λ t. (t.0, (token p v).1 ++ t.1, t.2)) runs, (l, served)))

  pub done-IsRun : (p : S) (n : ℕ) → IsRun p n [] p [] n
  unfolding run
  done-IsRun p n = (refl, tt)
