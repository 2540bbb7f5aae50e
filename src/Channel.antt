-- ===== src/Channel.antt =====
-- Go's buffered channels, as far as the program uses them: a `select` with a `default` branch sends
-- if there is room, and a receive takes the oldest value.
use aegis_edr.Prelude.{
  ℕ, ◌≤◌, Bool, true, false, List, [], ◌∷◌, ◌++◌, arith, ltb, if◌then◌else◌, length, length-append,
}

pub record Channel {ℓ} (A : Type ℓ) : Type ℓ where
  pub capacity : ℕ
  pub buffer : List A

abbrev pub make {ℓ} : {A : Type ℓ} → ℕ → Channel A
make n = record { capacity = n; buffer = [] }

module _ {ℓ} {A : Type ℓ} where
  -- select { case c <- a: … true … default: … false … }
  unfoldable pub try_send : Channel A → A → Channel A × Bool
  try_send c a =
      if ltb (length c.buffer) c.capacity
      then (record c { buffer = c.buffer ++ a ∷ [] }, true)
      else (c, false)

  abbrev pub Fits : Channel A → Type 0
  Fits c = length c.buffer ≤ c.capacity

  pub try_send-Fits : (c : Channel A) (a : A) → Fits c → Fits (try_send c a).0
  unfolding try_send
  try_send-Fits c a h = ground (arith, length-append c.buffer (a ∷ []))
