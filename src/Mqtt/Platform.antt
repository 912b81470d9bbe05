-- ===== src/Mqtt/Platform.antt =====
-- The calls of ESP-IDF and FreeRTOS that src/lib/mqtt.c makes, as a parameter, and the state that its
-- functions share.
use vedruino.Base.{ℕ, ℤ, Bool, Option, List, M, done}
use vedruino.Mqtt.Topic.{Topic, Sorting}
use vedruino.Mqtt.Heap.{Heap}

-- `none` is NULL, `false` an error. The calls of the client are given its handle, which may be NULL.
-- `has_memory` says whether the next `malloc` succeeds.
pub record Platform : Type 1 where
  pub World : Type 0
  pub sorting : Sorting
  pub open sorting use *
  pub unsubscribe : Option ℕ → (name : List ℕ) → World → ℤ × World
  pub subscribe : Option ℕ → (name : List ℕ) → (qos : ℕ) → World → ℤ × World
  pub publish : Option ℕ → (topic bytes : List ℕ) → (size qos : ℕ) → Bool → World → ℤ × World
  pub take_mutex : World → Bool × World
  pub give_mutex : World → Unit {0} × World
  pub has_memory : (size : ℕ) → World → Bool × World
  pub queue_create : World → Bool × World
  pub task_create : World → Bool × World
  pub mutex_create : World → Bool × World
  pub group_create : World → Bool × World
  pub client_init : World → Option ℕ × World
  pub client_register_event : ℕ → World → Bool × World
  pub client_start : ℕ → World → Bool × World
  pub client_stop : ℕ → World → Bool × World
  pub client_disconnect : Option ℕ → World → Bool × World
  pub client_destroy : Option ℕ → World → Bool × World

-- The bits of `pk_mqtt_event_group`.
pub record Bits : Type 0 where
  pub connected : Bool
  pub disconnected : Bool
  pub published : Bool
  pub subscribed : Bool
  pub unsubscribed : Bool
  pub data_bit : Bool
  pub fail : Bool

-- `struct mqtt_callback_item`: topic and data are addresses of blocks.
pub record Item : Type 0 where
  pub callback : ℕ
  pub topic : ℕ
  pub bytes : ℕ
  pub data_size : ℕ

-- A call of a callback, with the bytes that its arguments point to.
pub record Message : Type 0 where
  pub callback : ℕ
  pub topic : List ℕ
  pub bytes : List ℕ
  pub data_size : ℕ

-- The static variables; `none` is a handle that is NULL, for the queue with what is in it. `calls` are
-- the calls of callbacks so far, the last one at the end.
pub record State (p : Platform) : Type 0 where
  pub world : p.World
  pub client : Option ℕ
  pub event_group : Option Bits
  pub topics_mutex : Bool
  pub pairs : List Topic
  pub retry : ℕ
  pub queue : Option (List Item)
  pub task : Bool
  pub heap : Heap
  pub calls : List Message

-- A call that changes the world and none of the variables.
abbrev pub io : (p : Platform) {A : Type 0} → (p.World → A × p.World) → M (State p) A
io p f st = let (a, w) = f st.world in done a (record st { world = w })
