-- ===== src/Batcher/Order.antt =====
-- No step of the goroutine loses, repeats or reorders an event, and batches stay small.
use mathlib.Core.List.{append_assoc}
use aegis_edr.Prelude.{
  ◌≡◌, refl, sym, ap, ◌∙◌, ◌<◌, ◌≤◌, ◌+◌, List, [], ◌∷◌, ◌++◌, arith, length, length-append,
  Bool-cases, inl, inr, leb,
}
use aegis_edr.Batcher.{
  Phase, running, draining, Loop, Signal, arrives, ticks, closes, empties, cancels, hand_over,
  flush, take_event, receive, finish, in_phase, step, contents, handed, IsSmall, Outcome,
}

module _ {ℓ} {E : Type ℓ} where
  abbrev Keeps : Loop E → Outcome E → Type ℓ
  Keeps l r = handed r.1 ++ contents r.0 ≡ contents l

  hand_over-Keeps : (l : Loop E) (b : List E) → l.batch ≡ b → Keeps l (hand_over l b)
  unfolding hand_over
  hand_over-Keeps l [] h = refl
  hand_over-Keeps l (e ∷ es) h = rw h

  flush-Keeps : (l : Loop E) → Keeps l (flush l)
  unfolding flush
  flush-Keeps l = hand_over-Keeps l l.batch refl

  take_event-Keeps : (l : Loop E) (q : List E) → l.queue.buffer ≡ q → Keeps l (take_event l q)
  unfolding take_event
  take_event-Keeps l [] h = refl
  take_event-Keeps l (e ∷ rest) h =
      let l' : Loop E = record l {
        queue = record l.queue { buffer = rest };
        batch = l.batch ++ e ∷ [];
      } in
      elim (Bool-cases (leb 100 (length l'.batch))) [
        | inl full ↦
            rw full
              (flush-Keeps l' ∙ append_assoc l.batch (e ∷ []) rest ∙ ap (◌++◌ l.batch) (sym h))
        | inr room ↦ rw room (append_assoc l.batch (e ∷ []) rest ∙ ap (◌++◌ l.batch) (sym h))
      ]

  finish-Keeps : (l : Loop E) (q : List E) → Keeps l (finish l q)
  unfolding finish
  finish-Keeps l [] = flush-Keeps l
  finish-Keeps l (e ∷ es) = refl

  in_phase-Keeps : (p : Phase) (s : Signal) (l : Loop E) → Keeps l (in_phase p s l)
  unfolding in_phase receive
  in_phase-Keeps running arrives l = take_event-Keeps l l.queue.buffer refl
  in_phase-Keeps running ticks l = flush-Keeps l
  in_phase-Keeps running closes l = refl
  in_phase-Keeps running cancels l = flush-Keeps l
  in_phase-Keeps draining arrives l = take_event-Keeps l l.queue.buffer refl
  in_phase-Keeps draining empties l = finish-Keeps l l.queue.buffer
  in_phase-Keeps _ _ l = refl

  -- The batch handed over, then what is left, is what was there before, in order.
  pub step-contents :
      (s : Signal) (l : Loop E) → handed (step s l).1 ++ contents (step s l).0 ≡ contents l
  unfolding step
  step-contents s l = in_phase-Keeps l.phase s l

  abbrev Small : Outcome E → Type 0
  Small r = (length r.0.batch < 100) × IsSmall r.1

  hand_over-Small : (l : Loop E) (b : List E) → l.batch ≡ b → length b ≤ 100 → Small (hand_over l b)
  unfolding hand_over
  hand_over-Small l [] h k = rw h (omega arith)
  hand_over-Small l (e ∷ es) h k = omega arith

  flush-Small : (l : Loop E) → length l.batch ≤ 100 → Small (flush l)
  unfolding flush
  flush-Small l = hand_over-Small l l.batch refl

  take_event-Small : (l : Loop E) (q : List E) → length l.batch < 100 → Small (take_event l q)
  unfolding take_event
  take_event-Small l [] h = omega arith
  take_event-Small l (e ∷ rest) h =
      let l' : Loop E = record l {
        queue = record l.queue { buffer = rest };
        batch = l.batch ++ e ∷ [];
      } in
      let size : length l'.batch ≡ length l.batch + 1 = length-append l.batch (e ∷ []) in
      elim (Bool-cases (leb 100 (length l'.batch))) [
        | inl full ↦ rw full (flush-Small l' (omega arith))
        | inr room ↦ rw room (ground arith)
      ]

  finish-Small : (l : Loop E) (q : List E) → length l.batch < 100 → Small (finish l q)
  unfolding finish
  finish-Small l [] h = let r = flush-Small l (omega arith) in (r.0, r.1)
  finish-Small l (e ∷ es) h = omega arith

  in_phase-Small :
      (p : Phase) (s : Signal) (l : Loop E) → length l.batch < 100 → Small (in_phase p s l)
  unfolding in_phase receive
  in_phase-Small running arrives l h = take_event-Small l l.queue.buffer h
  in_phase-Small running ticks l h = flush-Small l (omega arith)
  in_phase-Small running closes l h = omega arith
  in_phase-Small running cancels l h = flush-Small l (omega arith)
  in_phase-Small draining arrives l h = take_event-Small l l.queue.buffer h
  in_phase-Small draining empties l h = finish-Small l l.queue.buffer h
  in_phase-Small _ _ l h = omega arith

  pub step-IsSmall :
      (s : Signal) (l : Loop E)
      → length l.batch < 100
      → (length (step s l).0.batch < 100) × IsSmall (step s l).1
  unfolding step
  step-IsSmall s l = in_phase-Small l.phase s l
