-- ===== src/Router/Submit.antt =====
-- What Submit accepts, and what it counts.
use aegis_edr.Prelude.{increment, ℕ, ◌≡◌, [], ◌∷◌, ◌++◌, Bool, ltb, if◌then◌else◌, length}
use aegis_edr.Router.{Event, Router, watermark, is_file_read, put_event}

-- How long the queue may be for an event to be taken in: file reads stop at the watermark.
abbrev pub limit : ℕ → Event → ℕ
limit capacity e = if is_file_read e then watermark capacity else capacity

-- What a submission leaves behind: an accepted event at the end of the queue, or one more dropped
-- event and its object cleared in the pool; the batch, the store and the phase stay.
pub record Submitted {Db : Type 0} (r : Router Db) (e : Event) (out : Router Db × Bool)
    : Type 0 where
  pub accepted : out.1 ≡ ltb (length r.queue.buffer) (limit r.capacity e)
  pub queued : out.0.queue.buffer ≡ r.queue.buffer ++ (if out.1 then e ∷ [] else [])
  pub counted :
      out.0.dropped_events ≡ (if out.1 then r.dropped_events else increment r.dropped_events)
  pub recycled : out.0.pool ≡ (if out.1 then r.pool else put_event e r.pool)
  pub batch_kept : out.0.batch ≡ r.batch
  pub store_kept : out.0.store ≡ r.store
  pub phase_kept : out.0.phase ≡ r.phase
