-- ===== src/Mqtt/Topics/Lookup.antt =====
-- Which topic `find_callback` of src/lib/mqtt.c finds.
use mathlib.Core.List.{Mem}
use mathlib.Core.List.Perm
use vedruino.Base.{
  ℕ, ◌≡◌, refl, ap, sym, ◌∙◌, ◌≢◌, inl, inr, Bool, true, false, Option, none, some, List, [], ◌∷◌,
  Bool-cases, Halt, is_negative, if◌then◌else◌, Outcome, done, halt, ◌>>◌, Returns, bind-Returns,
  Returns-mono,
}
use vedruino.Mqtt.Topic.{Topic, topic_pair_cmp, strcmp-eq, strcmp_refl}
use vedruino.Mqtt.Platform.{Platform, State}
use vedruino.Mqtt.Topics.{
  with_mutex, unsubscribe_all, subscribe_all, replace_topics, pk_mqtt_set_subscribed_topics,
  search_tmp_topic, search_topics, find_callback,
}

module _ (p : Platform) where
  -- Only the world has changed.
  abbrev pub Same : State p → State p → Type 0
  Same st st' = st' ≡ record st { world = st'.world }

  Same-trans : (a b c : State p) → Same a b → Same b c → Same a c
  Same-trans a b c e f = f ∙ ap (λ (s : State p). record s { world = c.world }) e

  unsubscribe_all-Same :
      (ts : List Topic) (res : Bool) (st : State p)
      → Returns (λ _ st'. Same st st') (unsubscribe_all p ts res st)
  unfolding unsubscribe_all
  unsubscribe_all-Same [] res st = refl
  unsubscribe_all-Same (t ∷ ts) res st =
      let r = p.unsubscribe st.client t.name st.world in
      unsubscribe_all-Same ts (if is_negative r.0 then false else res) (record st { world = r.1 })

  subscribe_all-Same :
      (ts : List Topic) (res : Bool) (st : State p)
      → Returns (λ _ st'. Same st st') (subscribe_all p ts res st)
  unfolding subscribe_all
  subscribe_all-Same [] res st = refl
  subscribe_all-Same (t ∷ ts) res st =
      let r = p.subscribe st.client t.name t.qos st.world in
      subscribe_all-Same ts (if is_negative r.0 then false else res) (record st { world = r.1 })

  -- The sorted topics have taken the place of the old ones, and nothing else has changed.
  abbrev pub Replaced : List Topic → State p → {A : Type 0} → A → State p → Type 0
  Replaced ts st _ st' = st' ≡ record st { world = st'.world; pairs = p.qsort ts }

  replace_topics-Replaced :
      (ts : List Topic) (st : State p) → Returns (Replaced ts st) (replace_topics p ts st)
  unfolding replace_topics
  replace_topics-Replaced ts st =
      bind-Returns (λ _ st'. Same st st') (Replaced ts st) (unsubscribe_all p st.pairs true st) _
        (unsubscribe_all-Same st.pairs true st)
        (λ res v same.
          let v' : State p = record v { pairs = p.qsort ts } in
          bind-Returns (Replaced ts st) (Replaced ts st) (subscribe_all p (p.qsort ts) res v') _
            (then_Replaced (subscribe_all p (p.qsort ts) res v') v'
              (subscribe_all-Same (p.qsort ts) res v')
              (ap (λ (s : State p). record s { pairs = p.qsort ts }) same))
            (λ _ u e. ap (λ (s : State p). record s { world = (p.give_mutex u.world).1 }) e))
    where
      then_Replaced :
          (r : Outcome (State p) Bool) (v : State p)
          → Returns (λ _ w. Same v w) r
          → v ≡ record st { world = v.world; pairs = p.qsort ts }
          → Returns (Replaced ts st) r
      then_Replaced (done a w) v same e =
          same ∙ ap (λ (s : State p). record s { world = w.world }) e
      then_Replaced (halt h w) v same e = absurd same

  -- What a search for a name may give, among the topics `ts`.
  pub Found : List Topic → (name : List ℕ) → Option Topic → Type 0
  Found ts name none = (t : Topic) → Mem t ts → t.name ≢ name
  Found ts name (some t) = Mem t ts × (t.name ≡ name)

  pub Found-by_bsearch :
      (ts : List Topic) (name : List ℕ) (r : Option Topic)
      → p.bsearch (search_tmp_topic p name) (p.qsort ts) ≡ r
      → Found ts name r
  unfolding Found topic_pair_cmp
  Found-by_bsearch ts name none e = λ t m same.
      p.bsearch_none (search_tmp_topic p name) t (p.qsort ts) (p.qsort_sorted ts) e
        ((Perm.mem_iff (p.qsort_perm ts)).1 m) (rw same (strcmp_refl name))
  Found-by_bsearch ts name (some t) e =
      let (m, eq) = p.bsearch_some (search_tmp_topic p name) t (p.qsort ts) e in
      ((Perm.mem_iff (p.qsort_perm ts)).0 m, sym (strcmp-eq name t.name eq))

  -- `find_callback` takes the mutex and searches the table.
  pub find_callback-pairs :
      (name : List ℕ) (st : State p)
      → ((w : p.World) → (p.take_mutex w).0 ≡ true)
      → st.topics_mutex ≡ true
      → Returns
          (λ r st'. r ≡ p.bsearch (search_tmp_topic p name) st.pairs)
          (find_callback p name st)
  unfolding find_callback with_mutex search_topics
  find_callback-pairs name st free there = rw (there, free st.world, Returns) refl

  pub find_callback-Same :
      (name : List ℕ) (st : State p)
      → st.topics_mutex ≡ true
      → Returns (λ _ st'. Same st st') (find_callback p name st)
  unfolding find_callback with_mutex search_topics
  find_callback-Same name st there = elim (Bool-cases (p.take_mutex st.world).0) [
    | inl taken ↦ rw (there, taken, Returns) refl
    | inr late ↦ rw (there, late, Returns) refl
  ]

  pub find_callback-no_mutex :
      (name : List ℕ) (st : State p)
      → st.topics_mutex ≡ false
      → find_callback p name st ≡ halt Halt.undefined_read st
  unfolding find_callback with_mutex
  find_callback-no_mutex name st e = rw e

  -- Where the mutex can be taken, the given topics replace the old ones.
  pub set_subscribed_topics-Replaced :
      (ts : List Topic) (st : State p)
      → ((w : p.World) → (p.take_mutex w).0 ≡ true)
      → st.topics_mutex ≡ true
      → Returns (Replaced ts st) (pk_mqtt_set_subscribed_topics p ts st)
  unfolding pk_mqtt_set_subscribed_topics with_mutex
  set_subscribed_topics-Replaced ts st free there =
      rw (there, free st.world, Returns)
        (replace_topics-Replaced ts (record st { world = (p.take_mutex st.world).1 }))

  -- Where the mutex is there and can always be taken in time, `pk_mqtt_set_subscribed_topics` and then
  -- `find_callback` return: with a topic of the given ones that has the name, or with none, and then none
  -- of the given topics has it.
  pub find_callback-set_subscribed_topics :
      (ts : List Topic) (name : List ℕ) (st : State p)
      → ((w : p.World) → (p.take_mutex w).0 ≡ true)
      → st.topics_mutex ≡ true
      → Returns
          (λ r _. Found ts name r)
          ((pk_mqtt_set_subscribed_topics p ts >> find_callback p name) st)
  find_callback-set_subscribed_topics ts name st free there =
      bind-Returns (Replaced ts st) (λ r _. Found ts name r) (pk_mqtt_set_subscribed_topics p ts st)
        (λ _. find_callback p name) (set_subscribed_topics-Replaced ts st free there)
        (λ _ v e.
          Returns-mono (λ r _. r ≡ p.bsearch (search_tmp_topic p name) v.pairs)
            (λ r _. Found ts name r) (find_callback p name v)
            (find_callback-pairs name v free (ap (λ (s : State p). s.topics_mutex) e ∙ there))
            (λ r _ at.
              Found-by_bsearch ts name r
                (sym (at ∙ ap (λ (s : State p). p.bsearch (search_tmp_topic p name) s.pairs) e))))
