-- ===== src/Mqtt/Topics.antt =====
-- The topics of src/lib/mqtt.c: `pk_mqtt_set_subscribed_topics`, `find_callback`,
-- `pk_mqtt_unsubscribe_topic` and `pk_mqtt_publish`.
pub mod Lookup
use vedruino.Base.{
  ℕ, zero, suc, ℤ, is_negative, int_eq, Bool, true, false, not, ◌&&◌, Option, none, some, List, [],
  ◌∷◌, ◌==◌, if◌then◌else◌, length, take, M, pure, stop, ◌>>=◌, ◌>>◌, modify, Halt,
}
use vedruino.Mqtt.Topic.{Topic}
use vedruino.Mqtt.Platform.{Platform, State, io}

-- The text in a buffer, up to the first NUL.
abbrev pub c_string : List ℕ → List ℕ
c_string [] = []
c_string (b ∷ bs) = let rest = c_string bs in if b == 0 then [] else b ∷ rest

module _ (p : Platform) where
  -- `xSemaphoreTake` with a limit of time. The mutex has to be there.
  with_mutex : {A : Type 0} → M (State p) A → M (State p) A → M (State p) A
  with_mutex body otherwise st = elim st.topics_mutex [
    | false ↦ stop Halt.undefined_read st
    | true ↦ (io p p.take_mutex >>= λ ok. elim ok [ true ↦ body | false ↦ otherwise ]) st
  ]

  -- The loops over `subs_topics.pairs`. `res` stays as it is unless a call fails.
  unsubscribe_all : List Topic → (res : Bool) → M (State p) Bool
  unsubscribe_all [] res st = pure res st
  unsubscribe_all (t ∷ ts) res st =
      (io p (p.unsubscribe st.client t.name) >>= λ r.
      unsubscribe_all ts (if is_negative r then false else res))
        st

  subscribe_all : List Topic → (res : Bool) → M (State p) Bool
  subscribe_all [] res st = pure res st
  subscribe_all (t ∷ ts) res st =
      (io p (p.subscribe st.client t.name t.qos) >>= λ r.
      subscribe_all ts (if is_negative r then false else res))
        st

  replace_topics : List Topic → M (State p) Bool
  unfolding unsubscribe_all subscribe_all
  replace_topics topics st =
      (unsubscribe_all st.pairs true >>= λ res.
      modify (λ st'. record st' { pairs = p.qsort topics })
      >> subscribe_all (p.qsort topics) res
      >>= λ res'. io p p.give_mutex >> pure res')
        st

  unfoldable pub pk_mqtt_set_subscribed_topics : List Topic → M (State p) Bool
  unfolding with_mutex replace_topics
  pk_mqtt_set_subscribed_topics topics = with_mutex (replace_topics topics) (pure false)

  -- `search_tmp_topic`: only its name is set.
  abbrev pub search_tmp_topic : List ℕ → Topic
  search_tmp_topic name = record { name = name; callback = none; qos = 0 }

  search_topics : List ℕ → M (State p) (Option Topic)
  search_topics name st =
      (io p p.give_mutex >> pure (p.bsearch (search_tmp_topic name) st.pairs)) st

  unfoldable pub find_callback : List ℕ → M (State p) (Option Topic)
  unfolding with_mutex search_topics
  find_callback name = with_mutex (search_topics name) (pure none)

  unfoldable pub pk_mqtt_unsubscribe_topic : List ℕ → M (State p) Bool
  pk_mqtt_unsubscribe_topic name st =
      (io p (p.unsubscribe st.client name) >>= λ r. pure (not (int_eq r (ℤ.negsuc 0)))) st

  -- `data` is a buffer, which ends with a NUL where `data_size` is 0.
  unfoldable pub pk_mqtt_publish :
      (topic bytes : List ℕ) → (data_size qos : ℕ) → (retain : Bool) → M (State p) Bool
  pk_mqtt_publish topic bytes data_size qos retain st =
      (io p (
            p.publish st.client topic bytes
              (if data_size == 0 then length (c_string bytes) else data_size) qos retain)
          >>= λ r. pure (not (is_negative r)))
        st
