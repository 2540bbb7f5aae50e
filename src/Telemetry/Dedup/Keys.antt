-- ===== src/Telemetry/Dedup/Keys.antt =====
-- The keys of IsDuplicate: what it takes for the same event.
use text.Mathlib.TextLemmas.{append_assoc}
use aegis_edr.Prelude.{
  ℕ, ◌+◌, ◌≡◌, inl, inr, String, some, false, arith, ltb, not, string_eq, Bool-cases, ◌^^◌,
}
use aegis_edr.Dict.{get, put, size, get-put_self, get-retain}
use aegis_edr.Telemetry.{Event}
use aegis_edr.Telemetry.Dedup.{
  Deduplicator, dedup_key, is_recent, prune, is_duplicate_key, is_duplicate,
}

get-prune_fresh :
    (ttl now : ℕ) (d : Deduplicator) (key : String)
    → get (prune ttl now (put d.cache key now)) key ≡ some now
unfolding prune
get-prune_fresh ttl now d key = elim (Bool-cases (ltb 10000 (size (put d.cache key now)))) [
  | inl many ↦ rw many (
      rw
        (
          get-retain (λ t. not (ltb (t + ttl) now)) (put d.cache key now) key,
          get-put_self d.cache key now,
        )
        (ground arith))
  | inr few ↦ rw few (get-put_self d.cache key now)
]

-- An event that is let through makes every event with its key a duplicate for the length of the
-- ttl, and from then on it is let through again.
pub is_duplicate_again :
    (d : Deduplicator) (e f : Event) (now later : ℕ)
    → (is_duplicate d e now).1 ≡ false
    → dedup_key f ≡ dedup_key e
    → (is_duplicate (is_duplicate d e now).0 f later).1 ≡ ltb later (now + d.ttl)
unfolding is_duplicate is_duplicate_key is_recent
is_duplicate_again d e f now later through same =
    rw same (ground (arith, get-prune_fresh d.ttl now d (dedup_key e)))

-- The parts of a key are joined by colons, which a path may contain: whatever the process, a file
-- event whose path goes on with a colon and `q` has the key of another event, whose action begins
-- with `q` and a colon.
pub dedup_key_collision :
    (e : Event) (p q a : String)
    → e.type ≡ "file"
    → dedup_key (record e { file_path = p ^^ ":" ^^ q; file_action = a })
      ≡ dedup_key (record e { file_path = p; file_action = q ^^ ":" ^^ a })
unfolding dedup_key
dedup_key_collision e p q a file = rw file (simp append_assoc)
