-- ===== src/Mqtt/Events/Frame.antt =====
-- The events of src/lib/mqtt.c leave the count of retries and the fail bit alone, but for the loss of the
-- connection.
use vedruino.Base.{
  ℕ, suc, ◌≡◌, refl, sym, ap, ◌∙◌, inl, inr, Bool, true, false, Option, none, some, Option-cases,
  List, [], ◌∷◌, ◌++◌, length, ◌>>◌, Ends,
}
use vedruino.Mqtt.Topic.{Topic}
use vedruino.Mqtt.Platform.{Platform, Bits, Item}
use vedruino.Mqtt.Topics.{c_string, find_callback}
use vedruino.Mqtt.Memory.{at_block, malloc, free, store, queue_send}
use vedruino.Mqtt.Memory.Frame.{
  fail_of, Keeps, bind-Keeps, at_block-Keeps, malloc-Keeps, free-Keeps, store-Keeps,
  queue_send-Keeps, find_callback-Keeps,
}
use vedruino.Mqtt.Events.{
  set_bits, after_send, with_data, with_callback, with_pair, with_topic, on_data,
}

module _ (p : Platform) where
  pub set_bits-Keeps :
      (f : Bits → Bits) → ((b : Bits) → (f b).fail ≡ b.fail) → Keeps p (set_bits p f)
  set_bits-Keeps f same st = elim (Option-cases st.event_group) [
    | inl none_there ↦ rw (none_there, Ends) (refl, refl, (refl, refl))
    | inr (b, there) ↦
        rw (there, Ends) (refl, ap some (same b) ∙ sym (ap fail_of there), (refl, refl))
  ]

  module _ (topic bytes : List ℕ) (drained : Bool) where
    after_send-Keeps : (i : Item) (ok : Bool) → Keeps p (after_send p topic bytes drained i ok)
    unfolding after_send
    after_send-Keeps i true st = (refl, refl, (refl, refl))
    after_send-Keeps i false st =
        bind-Keeps p (free p i.bytes) (λ _. free p i.topic) (free-Keeps p i.bytes)
          (λ _. free-Keeps p i.topic) st

    with_data-Keeps :
        (t callback : ℕ) (r : Option ℕ) → Keeps p (with_data p topic bytes drained t callback r)
    unfolding with_data
    with_data-Keeps t callback none st = (refl, refl, (refl, refl))
    with_data-Keeps t callback (some d) st =
        bind-Keeps p (store p d (bytes ++ 0 ∷ []) >> queue_send p drained args)
          (after_send p topic bytes drained args)
          (bind-Keeps p (store p d (bytes ++ 0 ∷ [])) (λ _. queue_send p drained args)
            (store-Keeps p d (bytes ++ 0 ∷ [])) (λ _. queue_send-Keeps p drained args))
          (after_send-Keeps args) st
      where
        args : Item
        args = record { callback = callback; topic = t; bytes = d; data_size = length bytes }

    with_callback-Keeps :
        (t : ℕ) (callback : Option ℕ) → Keeps p (with_callback p topic bytes drained t callback)
    unfolding with_callback
    with_callback-Keeps t none st = free-Keeps p t st
    with_callback-Keeps t (some callback) st =
        bind-Keeps p (malloc p (suc (length bytes))) (with_data p topic bytes drained t callback)
          (malloc-Keeps p (suc (length bytes))) (with_data-Keeps t callback) st

    with_pair-Keeps :
        (t : ℕ) (pair : Option Topic) → Keeps p (with_pair p topic bytes drained t pair)
    unfolding with_pair
    with_pair-Keeps t none st = free-Keeps p t st
    with_pair-Keeps t (some pair) st = with_callback-Keeps t pair.callback st

    with_topic-Keeps : (r : Option ℕ) → Keeps p (with_topic p topic bytes drained r)
    unfolding with_topic
    with_topic-Keeps none st = (refl, refl, (refl, refl))
    with_topic-Keeps (some t) st =
        bind-Keeps p _ (with_pair p topic bytes drained t)
          (bind-Keeps p (store p t (topic ++ 0 ∷ []))
            (λ _. at_block p t (λ v. find_callback p (c_string v)))
            (store-Keeps p t (topic ++ 0 ∷ []))
            (λ _. at_block-Keeps p t _ (λ v. find_callback-Keeps p (c_string v))))
          (with_pair-Keeps t) st

    pub on_data-Keeps : Keeps p (on_data p topic bytes drained)
    unfolding on_data
    on_data-Keeps =
        bind-Keeps p _ (with_topic p topic bytes drained)
          (bind-Keeps p (set_bits p (λ b. record b { data_bit = true }))
            (λ _. malloc p (suc (length topic)))
            (set_bits-Keeps (λ b. record b { data_bit = true }) (λ b. refl))
            (λ _. malloc-Keeps p (suc (length topic))))
          with_topic-Keeps
