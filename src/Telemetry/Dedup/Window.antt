-- ===== src/Telemetry/Dedup/Window.antt =====
-- Dropping old entries changes no answer: with a clock that does not go back, the deduplicator
-- answers as one that remembers everything.
use aegis_edr.Prelude.{
  ℕ, ◌+◌, ◌≡◌, ◌≤◌, ◌<◌, refl, ap, ◌∙◌, ◌⊎◌, inl, inr, String, Option, none, some, List, [], ◌∷◌,
  Bool, true, false, arith, ltb, not, if◌then◌else◌, ◌==◌, string_eq, Bool-cases,
}
use mathlib.Core.Path.{ap₂}
use aegis_edr.Dict.{Dict, empty, get, put, size, get-put, get-retain, get-empty, when}
use aegis_edr.Telemetry.Dedup.{Deduplicator, new_deduplicator, is_recent, prune, is_duplicate_key}

-- The last time that a key was let through, with nothing forgotten.
abbrev pub Memory : Type 0
Memory = String → Option ℕ

abbrev pub remember : Memory → String → ℕ → Memory
remember m key now k = if key == k then some now else m k

-- What the deduplicator promises: a sighting is a duplicate exactly if the last one that was let
-- through is less than the ttl old.
pub ideal : ℕ → Memory → String → ℕ → Memory × Bool
ideal ttl m key now = if is_recent ttl now (m key) then (m, true) else (remember m key now, false)

-- Sightings, each with a key and the time since the one before.
abbrev pub Sightings : Type 0
Sightings = List (String × ℕ)

pub answers : Deduplicator → ℕ → Sightings → List Bool
answers d now [] = []
answers d now ((key, wait) ∷ rest) =
    let (d', dup) = is_duplicate_key d key (now + wait) in dup ∷ answers d' (now + wait) rest

pub ideal_answers : ℕ → Memory → ℕ → Sightings → List Bool
ideal_answers ttl m now [] = []
ideal_answers ttl m now ((key, wait) ∷ rest) =
    let (m', dup) = ideal ttl m key (now + wait) in dup ∷ ideal_answers ttl m' (now + wait) rest

-- The cache holds what the memory holds, but for entries that are too old to matter.
abbrev Agrees : ℕ → ℕ → Option ℕ → Option ℕ → Type 0
Agrees ttl now cached known =
    (cached ≡ known) ⊎ ((t : ℕ) × (cached ≡ none) × (known ≡ some t) × (t + ttl < now))

abbrev Represents : Deduplicator → Memory → ℕ → Type 0
Represents d m now = (k : String) → Agrees d.ttl now (get d.cache k) (m k)

is_recent-Agrees :
    (ttl now later : ℕ) (c k : Option ℕ)
    → Agrees ttl now c k
    → now ≤ later
    → is_recent ttl later c ≡ is_recent ttl later k
unfolding is_recent
is_recent-Agrees ttl now later c k (inl same) h = ap (is_recent ttl later) same
is_recent-Agrees ttl now later c k (inr (t, gone, known, old)) h = ground arith

when-Agrees :
    (ttl now : ℕ) (c known : Option ℕ)
    → Agrees ttl now c known
    → Agrees ttl now (when (λ t. not (ltb (t + ttl) now)) c) known
when-Agrees ttl now none known a = a
when-Agrees ttl now (some t) known a = elim (Bool-cases (ltb (t + ttl) now)) [
  | inl old ↦ inr (t, ground arith, ground arith, ground arith)
  | inr young ↦ rw young a
]

prune-Agrees :
    (ttl now : ℕ) (cache : Dict String ℕ) (k : String) (known : Option ℕ)
    → Agrees ttl now (get cache k) known
    → Agrees ttl now (get (prune ttl now cache) k) known
unfolding prune
prune-Agrees ttl now cache k known a = elim (Bool-cases (ltb 10000 (size cache))) [
  | inl many ↦ rw many (
      rw (get-retain (λ t. not (ltb (t + ttl) now)) cache k)
        (when-Agrees ttl now (get cache k) known a))
  | inr few ↦ rw few a
]

Agrees-later :
    (ttl now later : ℕ) (c known : Option ℕ)
    → Agrees ttl now c known
    → now ≤ later
    → Agrees ttl later c known
Agrees-later ttl now later c known (inl same) h = inl same
Agrees-later ttl now later c known (inr (t, gone, e, old)) h = inr (t, gone, e, omega arith)

put-Agrees :
    (ttl now : ℕ) (cache : Dict String ℕ) (m : Memory) (key k : String)
    → Agrees ttl now (get cache k) (m k)
    → Agrees ttl now (get (put cache key now) k) (remember m key now k)
put-Agrees ttl now cache m key k a =
    rw get-put
      (elim (Bool-cases (key == k)) [ inl same ↦ rw same (inl refl) | inr other ↦ rw other a ])

abbrev Simulates : Deduplicator → Memory → String → ℕ → Type 0
Simulates d m key now =
    ((is_duplicate_key d key now).1 ≡ (ideal d.ttl m key now).1)
    × ((is_duplicate_key d key now).0.ttl ≡ d.ttl)
    × Represents (is_duplicate_key d key now).0 (ideal d.ttl m key now).0 now

simulate :
    (d : Deduplicator) (m : Memory) (key : String) (now later : ℕ)
    → Represents d m now
    → now ≤ later
    → Simulates d m key later
unfolding is_duplicate_key ideal
simulate d m key now later r h =
    let same = is_recent-Agrees d.ttl now later (get d.cache key) (m key) (r key) h in
    elim (Bool-cases (is_recent d.ttl later (m key))) [
      | inl recent ↦
          rw (same ∙ recent, recent) (refl, refl, λ k. Agrees-later d.ttl now later _ _ (r k) h)
      | inr stale ↦
          rw (same ∙ stale, stale)
            (
              refl,
              refl,
              λ k. prune-Agrees d.ttl later (put d.cache key later) k (remember m key later k) (
                  put-Agrees d.ttl later d.cache m key k
                    (Agrees-later d.ttl now later _ _ (r k) h)),
            )
    ]

answers_agree :
    (d : Deduplicator) (m : Memory) (now : ℕ) (s : Sightings)
    → Represents d m now
    → answers d now s ≡ ideal_answers d.ttl m now s
unfolding answers ideal_answers
answers_agree d m now [] r = refl
answers_agree d m now ((key, wait) ∷ rest) r =
    let (dup, kept, r') = simulate d m key now (now + wait) r (omega arith) in
    let d' = (is_duplicate_key d key (now + wait)).0 in
    let m' = (ideal d.ttl m key (now + wait)).0 in
    ap₂ (λ b bs. b ∷ bs) dup
      (answers_agree d' m' (now + wait) rest r'
        ∙ ap (λ t. ideal_answers t m' (now + wait) rest) kept)

-- Over any sequence of sightings at times that do not decrease, a new deduplicator calls exactly
-- those duplicates whose key was last let through less than the ttl before: the entries that it
-- drops from a full cache never make a difference.
pub answers-ideal :
    (ttl now : ℕ) (s : Sightings)
    → answers (new_deduplicator ttl) now s ≡ ideal_answers ttl (λ _. none) now s
unfolding new_deduplicator
answers-ideal ttl now s =
    answers_agree (record { cache = empty; ttl = ttl }) (λ _. none) now s
      (λ k. inl (get-empty {V = ℕ} k))
