-- ===== src/Mqtt.antt =====
-- src/lib/mqtt.c: the MQTT client. It keeps a table of topics with their callbacks, takes the events of
-- the broker, and runs the callbacks in a task of their own.
pub mod Heap
pub mod Topic
pub mod Platform
pub mod Topics
pub mod Memory
pub mod Events
pub mod Connect
pub mod Network
pub mod Tests
