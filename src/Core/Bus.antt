-- ===== src/Core/Bus.antt =====
-- What a subscriber of the event bus gets.
use aegis_edr.Prelude.{
  ℕ, zero, suc, ◌≡◌, ◌≤◌, refl, sym, ap, ◌∙◌, inl, inr, String, some, List, [], ◌∷◌, ◌++◌, true,
  false, arith, if◌then◌else◌, ◌==◌, string_eq, map, length, take, length-append, Bool-cases,
  Option-cases, ltb, All,
}
use mathlib.Core.List.{append_assoc}
use mathlib.Core.Path.{ap₂}
use aegis_edr.Dict.{get, get-put}
use aegis_edr.Channel.{Channel, try_send}
use aegis_edr.Core.{BusEvent, EventBus, send_to, publish}

take-append_all {ℓ} : {A : Type ℓ} (n : ℕ) (xs ys : List A) → n ≡ length xs → take n (xs ++ ys) ≡ xs
take-append_all zero [] ys h = refl
take-append_all (suc n) [] ys h = absurd (omega (arith, h))
take-append_all zero (x ∷ xs) ys h = absurd (omega (arith, h))
take-append_all (suc n) (x ∷ xs) ys h = ap (◌∷◌ x) (take-append_all n xs ys (omega (arith, h)))

take_all {ℓ} : {A : Type ℓ} (n : ℕ) (xs : List A) → length xs ≤ n → take n (xs ++ []) ≡ xs
take_all zero [] h = refl
take_all (suc n) [] h = refl
take_all zero (x ∷ xs) h = absurd (omega (arith, h))
take_all (suc n) (x ∷ xs) h = ap (◌∷◌ x) (take_all n xs (omega (arith, h)))

map_id {ℓ} : {A : Type ℓ} (xs : List A) → map (λ x. x) xs ≡ xs
map_id [] = refl
map_id (x ∷ xs) = ap (◌∷◌ x) (map_id xs)

map-map {ℓ} : {A : Type ℓ} (f g : A → A) (xs : List A) → map f (map g xs) ≡ map (λ x. f (g x)) xs
map-map f g [] = refl
map-map f g (x ∷ xs) = ap (◌∷◌ (f (g x))) (map-map f g xs)

module _ {Data : Type 0} where
  unfoldable pub publish_all : EventBus Data → List (BusEvent Data) → EventBus Data
  publish_all eb [] = eb
  publish_all eb (ev ∷ evs) = publish_all (publish eb ev) evs

  -- What is published on one topic, in order.
  abbrev pub on_topic : String → List (BusEvent Data) → List (BusEvent Data)
  on_topic topic [] = []
  on_topic topic (ev ∷ evs) =
      if ev.topic == topic then ev ∷ on_topic topic evs else on_topic topic evs

  -- A channel after attempts to send, while nobody receives.
  fill : Channel (BusEvent Data) → List (BusEvent Data) → Channel (BusEvent Data)
  fill c [] = c
  fill c (ev ∷ evs) = fill (send_to ev c) evs

  -- A channel with the events that it held first and as many of the others as it has room for.
  abbrev pub filled : Channel (BusEvent Data) → List (BusEvent Data) → Channel (BusEvent Data)
  filled c evs = record c { buffer = take c.capacity (c.buffer ++ evs) }

  fill_take :
      (c : Channel (BusEvent Data)) (evs : List (BusEvent Data))
      → length c.buffer ≤ c.capacity
      → fill c evs ≡ filled c evs
  unfolding fill send_to try_send
  fill_take c [] h = ap (λ b. record c { buffer = b }) (sym (take_all c.capacity c.buffer h))
  fill_take c (ev ∷ evs) h = elim (Bool-cases (ltb (length c.buffer) c.capacity)) [
    | inl room ↦
        rw (room, fill, send_to, try_send)
          (fill_take (record c { buffer = c.buffer ++ ev ∷ [] }) evs
              (ground (arith, room, length-append c.buffer (ev ∷ [])))
            ∙ ap (λ b. record c { buffer = take c.capacity b })
                (append_assoc c.buffer (ev ∷ []) evs))
    | inr full ↦
        let exact : c.capacity ≡ length c.buffer = ground (arith, full, h) in
        rw (full, fill, send_to, try_send)
          (fill_take c evs h
            ∙ ap (λ b. record c { buffer = b })
                (take-append_all c.capacity c.buffer evs exact
                  ∙ sym (take-append_all c.capacity c.buffer (ev ∷ evs) exact)))
  ]

  get-publish :
      (eb : EventBus Data) (ev : BusEvent Data) (topic : String)
      (channels : List (Channel (BusEvent Data)))
      → (ev.topic == topic) ≡ true
      → get eb topic ≡ some channels
      → get (publish eb ev) topic ≡ some (map (send_to ev) channels)
  unfolding publish
  get-publish eb ev topic channels same h =
      let e = (string_eq.same_iff ev.topic topic).0 same in
      let here : get eb ev.topic ≡ some channels = ap (get eb) e ∙ h in
      rw (here, publish) (get-put eb ev.topic topic (map (send_to ev) channels) ∙ rw same refl)

  get-publish_other :
      (eb : EventBus Data) (ev : BusEvent Data) (topic : String)
      → (ev.topic == topic) ≡ false
      → get (publish eb ev) topic ≡ get eb topic
  unfolding publish
  get-publish_other eb ev topic other = elim (Option-cases (get eb ev.topic)) [
    | inl nobody ↦ rw (nobody, publish) refl
    | inr (channels, here) ↦
        rw (here, publish) (get-put eb ev.topic topic (map (send_to ev) channels) ∙ rw other refl)
  ]

  publish_all-get :
      (eb : EventBus Data) (topic : String) (channels : List (Channel (BusEvent Data)))
      (evs : List (BusEvent Data))
      → get eb topic ≡ some channels
      → get (publish_all eb evs) topic ≡ some (map (λ c. fill c (on_topic topic evs)) channels)
  unfolding publish_all fill
  publish_all-get eb topic channels [] h = h ∙ ap some (sym (map_id channels))
  publish_all-get eb topic channels (ev ∷ evs) h = elim (Bool-cases (ev.topic == topic)) [
    | inl same ↦ rw same (
        publish_all-get (publish eb ev) topic (map (send_to ev) channels) evs
          (get-publish eb ev topic channels same h)
        ∙ ap some (map-map (λ c. fill c (on_topic topic evs)) (send_to ev) channels))
    | inr other ↦ rw other (
        publish_all-get (publish eb ev) topic channels evs
          (get-publish_other eb ev topic other ∙ h))
  ]

  map-filled :
      (channels : List (Channel (BusEvent Data))) (evs : List (BusEvent Data))
      → All (λ c. length c.buffer ≤ c.capacity) channels
      → map (λ c. fill c evs) channels ≡ map (λ c. filled c evs) channels
  map-filled [] evs h = refl
  map-filled (c ∷ cs) evs (h, hs) = ap₂ (λ x xs. x ∷ xs) (fill_take c evs h) (map-filled cs evs hs)

  -- While the subscribers of a topic do not receive, each of their channels gets the events of its
  -- topic that are published, and no others, in order, up to its capacity: what does not fit is
  -- lost for that subscriber.
  pub publish_all-filled :
      (eb : EventBus Data) (topic : String) (channels : List (Channel (BusEvent Data)))
      (evs : List (BusEvent Data))
      → get eb topic ≡ some channels
      → All (λ c. length c.buffer ≤ c.capacity) channels
      → get (publish_all eb evs) topic ≡ some (map (λ c. filled c (on_topic topic evs)) channels)
  publish_all-filled eb topic channels evs h fits =
      publish_all-get eb topic channels evs h
      ∙ ap some (map-filled channels (on_topic topic evs) fits)
