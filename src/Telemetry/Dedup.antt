-- ===== src/Telemetry/Dedup.antt =====
-- The deduplicator of internal/telemetry/pipeline.go. A time is a number of nanoseconds, and
-- `now.Sub(t) < ttl` is `now < t + ttl`, for durations of less than 292 years.
pub mod Window
pub mod Keys
mod Tests
use aegis_edr.Prelude.{
  ℕ, ◌+◌, ◌-◌, ◌/◌, String, Option, none, some, List, [], ◌∷◌, Bool, true, false, ltb, leb, not,
  if◌then◌else◌, ◌==◌, string_eq, ◌^^◌, show_int, show_nat,
}
use aegis_edr.Dict.{Dict, empty, get, put, retain, size}
use aegis_edr.Telemetry.{Event}

pub record Deduplicator : Type 0 where
  pub cache : Dict String ℕ
  pub ttl : ℕ

unfoldable pub new_deduplicator : ℕ → Deduplicator
new_deduplicator ttl = record { cache = empty; ttl = ttl }

-- The zero time is the start of year 1; Unix seconds count from 1970.
abbrev unix_epoch : ℕ
unix_epoch = 62135596800

-- %d of timestamp.Unix()
show_unix : ℕ → String
show_unix t =
    let seconds = t / 1000000000 in
    if ltb seconds unix_epoch
    then "-" ^^ show_nat (unix_epoch - seconds)
    else show_nat (seconds - unix_epoch)

unfoldable pub dedup_key : Event → String
unfolding show_unix
dedup_key e =
    if e.type == "process"
    then "proc:" ^^ show_int e.process_id ^^ ":" ^^ e.binary_path
    else if e.type == "file"
    then "file:" ^^ show_int e.process_id ^^ ":" ^^ e.file_path ^^ ":" ^^ e.file_action
    else if e.type == "network"
    then "net:"
      ^^ show_int e.process_id
      ^^ ":"
      ^^ e.remote_ip
      ^^ ":"
      ^^ e.protocol
      ^^ ":"
      ^^ show_int e.remote_port
    else "other:" ^^ e.type ^^ ":" ^^ show_unix e.timestamp

-- now.Sub(lastSeen) < ttl
unfoldable pub is_recent : ℕ → ℕ → Option ℕ → Bool
is_recent ttl now none = false
is_recent ttl now (some last_seen) = ltb now (last_seen + ttl)

-- The entries older than the ttl go, once there are more than 10000.
unfoldable pub prune : ℕ → ℕ → Dict String ℕ → Dict String ℕ
prune ttl now cache =
    if ltb 10000 (size cache) then retain (λ t. not (ltb (t + ttl) now)) cache else cache

-- IsDuplicate for a key, at a time of the clock.
unfoldable pub is_duplicate_key : Deduplicator → String → ℕ → Deduplicator × Bool
unfolding is_recent prune
is_duplicate_key d key now =
    if is_recent d.ttl now (get d.cache key)
    then (d, true)
    else (record d { cache = prune d.ttl now (put d.cache key now) }, false)

unfoldable pub is_duplicate : Deduplicator → Event → ℕ → Deduplicator × Bool
is_duplicate d e now = is_duplicate_key d (dedup_key e) now
