-- ===== src/Batcher/Tests.antt =====
-- The goroutine at a concrete input: two events in the channel, a third that arrives between.
use aegis_edr.Prelude.{◌≡◌, refl, ℕ, List, [], ◌∷◌, ◌++◌, arith}
use aegis_edr.Batcher.{Loop, running, ticks, step, handed}
use aegis_edr.Batcher.Liveness.{Turn, sends, takes, turns, takes_in, turns_deliver}

abbrev waiting : Loop ℕ
waiting = record {
  queue = record { buffer = 1 ∷ 2 ∷ []; capacity = 10 };
  batch = 0 ∷ [];
  phase = running;
}

abbrev history : List (Turn ℕ)
history = takes ∷ sends 3 ∷ takes ∷ []

turns_deliver_example :
    (later : List ℕ) × ((turns history waiting).1 ++ handed (step ticks (turns history waiting).0).1
      ≡ 0 ∷ 1 ∷ 2 ∷ later)
unfolding takes_in
turns_deliver_example = turns_deliver history waiting refl (omega arith)
