-- ===== src/Batcher/Drain.antt =====
-- Closing: the inner loop of the goroutine ends, and leaves nothing behind.
use mathlib.Core.List.{append-nil}
use mathlib.Core.Path.{ap₂}
use aegis_edr.Prelude.{
  ◌≡◌, refl, sym, ap, ◌∙◌, ◌<◌, ℕ, zero, suc, none, some, List, [], ◌∷◌, ◌++◌, arith, length,
  Option, Bool-cases, inl, inr, leb, concat, concat-append,
}
use aegis_edr.Batcher.{
  running, closes, draining, stopped, Loop, arrives, empties, hand_over, flush, take_event, receive,
  finish, in_phase, step, contents, handed, listed, drain,
}
use aegis_edr.Batcher.Order.{step-contents}

module _ {ℓ} {E : Type ℓ} where
  pub step-closes :
      (l : Loop E) → l.phase ≡ running → step closes l ≡ (record l { phase = draining }, none)
  unfolding step in_phase
  step-closes l p = ap (λ ph. in_phase ph closes l) p

  pub hand_over_keeps_queue :
      (l : Loop E) (b : List E)
      → ((hand_over l b).0.queue ≡ l.queue) × ((hand_over l b).0.phase ≡ l.phase)
  unfolding hand_over
  hand_over_keeps_queue l [] = (refl, refl)
  hand_over_keeps_queue l (e ∷ es) = (refl, refl)

  step-arrives :
      (l : Loop E) {q : List E}
      → l.phase ≡ draining
      → l.queue.buffer ≡ q
      → step arrives l ≡ take_event l q
  unfolding step in_phase receive
  step-arrives l p q = ap (λ ph. in_phase ph arrives l) p ∙ ap (take_event l) q

  step-empties :
      (l : Loop E) → l.phase ≡ draining → l.queue.buffer ≡ [] → step empties l ≡ finish l []
  unfolding step in_phase
  step-empties l p q = ap (λ ph. in_phase ph empties l) p ∙ ap (finish l) q

  pub take_event_takes :
      (l : Loop E) (e : E) (rest : List E)
      → ((take_event l (e ∷ rest)).0.queue.buffer ≡ rest)
        × ((take_event l (e ∷ rest)).0.phase ≡ l.phase)
  unfolding take_event flush
  take_event_takes l e rest =
      let l' : Loop E = record l {
        queue = record l.queue { buffer = rest };
        batch = l.batch ++ e ∷ [];
      } in
      let k = hand_over_keeps_queue l' l'.batch in
      elim (Bool-cases (leb 100 (length l'.batch))) [
        | inl full ↦ rw full (ap (λ c. c.buffer) k.0, k.1)
        | inr room ↦ rw room (refl, refl)
      ]

  -- While draining, a step that takes an event shortens the queue by it.
  arrives_takes :
      (l : Loop E) {e : E} {rest : List E}
      → l.phase ≡ draining
      → l.queue.buffer ≡ e ∷ rest
      → ((step arrives l).0.queue.buffer ≡ rest) × ((step arrives l).0.phase ≡ draining)
  arrives_takes l {e} {rest} p q =
      let t = take_event_takes l e rest in rw (step-arrives l p q) (t.0, t.1 ∙ p)

  pub hand_over_empties : (l : Loop E) (b : List E) → l.batch ≡ b → (hand_over l b).0.batch ≡ []
  unfolding hand_over
  hand_over_empties l [] h = h
  hand_over_empties l (e ∷ es) h = refl

  finish_stops :
      (l : Loop E)
      → l.queue.buffer ≡ []
      → ((finish l []).0.phase ≡ stopped) × (contents (finish l []).0 ≡ [])
  unfolding finish flush
  finish_stops l q = (
    refl,
    ap₂ (λ b r. b ++ r) (hand_over_empties l l.batch refl)
        (ap (λ c. c.buffer) (hand_over_keeps_queue l l.batch).0 ∙ q),
  )

  empties_stops :
      (l : Loop E)
      → l.phase ≡ draining
      → l.queue.buffer ≡ []
      → ((step empties l).0.phase ≡ stopped) × (contents (step empties l).0 ≡ [])
  empties_stops l p q = rw (step-empties l p q) (finish_stops l q)

  concat-listed : (b : Option (List E)) → concat (listed b) ≡ handed b
  concat-listed none = refl
  concat-listed (some b) = append-nil b

  abbrev pub Drained : Loop E → Loop E × List (List E) → Type ℓ
  Drained l r = (r.0.phase ≡ stopped) × (contents r.0 ≡ []) × (concat r.1 ≡ contents l)

  pub drain_ends :
      (fuel : ℕ) (l : Loop E) (q : List E)
      → l.phase ≡ draining
      → l.queue.buffer ≡ q
      → length q < fuel
      → Drained l (drain fuel l)
  unfolding drain
  drain_ends zero l q p e h = absurd (omega arith)
  drain_ends (suc fuel) l [] p e h =
      let s = empties_stops l p e in
      rw (e, drain)
        (
          s.0,
          s.1,
          concat-listed (step empties l).1
              ∙ sym (append-nil (handed (step empties l).1))
              ∙ ap (◌++◌ (handed (step empties l).1)) (sym s.1)
              ∙ step-contents empties l
              ∙ ap (◌++◌ l.batch) e,
        )
  drain_ends (suc fuel) l (x ∷ rest) p e h =
      let t = arrives_takes l p e in
      let ih = drain_ends fuel (step arrives l).0 rest t.1 t.0 (omega arith) in
      rw (e, drain)
        (
          ih.0,
          ih.1,
          concat-append (listed (step arrives l).1) (drain fuel (step arrives l).0).1
              ∙ ap₂ (λ a b. a ++ b) (concat-listed (step arrives l).1) ih.2
              ∙ step-contents arrives l
              ∙ ap (◌++◌ l.batch) e,
        )
