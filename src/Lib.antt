-- ===== src/Lib.antt =====
-- A verification library for the C firmware library vedruino (src/lib): the network layer, the update
-- server, the log server, the MQTT client, the I2C bus, the dump of the stack, and the small parts
-- beside.
--
-- - Base: Boolean tests, lists over the native numbers, and the outcome of a C call. A call is a
--   function of the state that returns a value or stops: a failed PK_ASSERT, a restart, a task that
--   deletes itself, a use of a variable, a block or a handle that is not there, a wait for something
--   that does not come, or a loop of the model that has used up its fuel. `Returns P` says that the
--   call returns and that P holds then, so a theorem of this form also says that the fuel was enough;
--   `Ends P Q` allows the task to stop, where Q holds of how.
-- - Ip models src/lib/ip.c and ip.h. Ip/Addr has pkIpAddr_t, pk_ip_addr2str, get_sockaddr and the byte
--   order; Ip/Sockets the calls of lwIP as a parameter, with what is assumed of them (IsStream: a
--   write takes a beginning of the buffer, a read takes bytes from the front; Progresses: a write of a
--   buffer that is not empty takes a byte or fails); Ip/Handles makes, accepts and closes sockets;
--   Ip/Stream has the send and receive loops; Ip/Net a small network on which the assumptions hold,
--   for the tests. The retry loop of pk_tcp_send and pk_udp_send has fuel for MAX_RETRIES_ON_ENOMEM +
--   1 calls, the loops of pk_tcp_sendn and pk_tcp_recvn for n + 1 rounds, each of which but the last
--   moves a byte.
-- - Ota models src/lib/ota.c, which calls Ip. Ota/Platform has the calls of ESP-IDF, FreeRTOS and
--   mbedtls as a parameter, and the static variables upd_part (its size), part_bytes_written and
--   header as the state; Ota/Flash what is assumed of the flash; Ota/Partition has check_upd_part
--   and erase_upd_part; Ota/Request has handle_req, cut at its early returns, with one module for
--   each thing that is proved of it; Ota/Server has server_task, whose endless loop is given a
--   number of rounds; Ota/Launch has ota_server_start; Ota/Hex has md5str; Ota/Board a small board
--   for the tests. IsQuiet of Ota/Flash says that the flash and the heap take nothing from a
--   stream. `conf_ota_verify_md5` stands for the macro CONF_OTA_VERIFY_MD5. check_upd_part has fuel
--   for one block more than the partition has bytes, handle_req for one read more than the firmware
--   has bytes.
-- - Netlog models src/lib/netlog.c, which calls Ip. Netlog/Table has clients, clients_num and
--   udp_clients_num, and what ctl_sub, del_client and flush_with_shstack do to them;
--   Netlog/Platform the static variables as the state; Netlog/Flush has del_client, stdout_flush
--   and flush_with_shstack; Netlog/Control has ctl_sub, ctl_unsub and ctl_handle_req; Netlog/Server
--   has bcast_boot_notify and ctl_server_task, whose endless loop is given a number of rounds;
--   Netlog/Init has pk_netlog_init; Netlog/Flush/Served describes sockets on which no send fails,
--   and Netlog/Recorder has such sockets for the tests. What clients_mutex protects is one step:
--   between two critical sections of a request, and before the first, other tasks print any number
--   of texts, and each is flushed to the clients (`printed`). What a local buffer holds before it
--   is written is `junk`. The loop over the clients has fuel for one round more than there are
--   clients, the loop over the blocks for one block for each byte.
-- - Mqtt models src/lib/mqtt.c and mqtt.h. Mqtt/Platform has the calls of ESP-IDF and FreeRTOS as a
--   parameter and the static variables as the state; Mqtt/Topic the order of the topics, with qsort
--   and bsearch as a parameter under the laws of the C standard; Mqtt/Topics the table of topics,
--   find_callback, pk_mqtt_unsubscribe_topic and pk_mqtt_publish; Mqtt/Heap and Mqtt/Memory the
--   blocks of malloc and free, the queue and mqtt_callback_task; Mqtt/Events has
--   mqtt_event_handler, and `run`, which lets events and rounds of mqtt_callback_task happen in any
--   order; Mqtt/Connect has pk_mqtt_connect, pk_mqtt_delete, pk_mqtt_stop and pk_mqtt_resume. The
--   two tasks meet at the queue alone, so a step is one event or one round; an event that finds the
--   queue full may wait for a round (`drained`). While pk_mqtt_connect waits for a bit, a given
--   list of actions happens; where it ends before a bit is set, the call is blocked. The queue
--   (queue_send) is the one that FreeRTOS documents, with the items of mqtt.c. A block that is
--   freed is gone, and its address is not given out again. Mqtt/Network is a small platform for the
--   tests.
-- - I2c models src/lib/i2c_tools.cpp and i2c_tools.h as one task runs them: the recursive mutex is
--   how often the task holds it, the queue of length 1 the line in it, and Wire a parameter.
--   I2c/Lines follows the calls of Wire up to the answer of the multiplexer.
-- - Json models src/lib/lwjson/pk_lwjson.c and pk_lwjson.h; the parser lwjson is a parameter.
--   Json/Masks has the masks as the header describes them.
-- - Misc models pk_hum_size of src/lib/misc.c, with the operations on float as a parameter and fuel
--   for nine rounds of its loop, one more than there are suffixes to go on to; Misc/Labels the two
--   functions of that file that give a label; Misc/Mdns models src/lib/mdns.c.
-- - Log models src/lib/log.c: pk_log_init, and pk_log_btrace over a memory and a program counter that
--   are a parameter. Its loop follows the saved registers of the stack, which may be a ring, so it has
--   fuel that the caller gives; one round more than there are frames is enough. Log/Format has the
--   text of a number in hexadecimal.
-- - Wifi models src/lib/wifi.c, which an #if 0 takes out of the build, as it stands there. While
--   pk_wifi_connect waits for a bit, a given list of events happens.
-- - Sysmon models src/lib/sysmon.c in the same way, with the operations on float as a parameter.
--   The endless loop of log_task is one round; what it prints is in the state. The int idle_ticks
--   is a number without a bound, which it equals for less than 2 ^ 31 ticks between two rounds of
--   log_task.
--
-- Not modelled: log messages, the floating-point speed that is only logged, the delay before a
-- restart, and memory addresses (a buffer is the list of its bytes; only the blocks of mqtt.c have
-- addresses). That a caller changes the array of topics while mqtt.c uses it is not modelled.
-- src/lib/lwjson/lwjson.c is another project's parser, src/lib/log_defs.h has macros that only print,
-- and btrace.S is assembly.
pub mod Base
pub mod Ip
pub mod Ota
pub mod Netlog
pub mod Mqtt
pub mod I2c
pub mod Json
pub mod Misc
pub mod Log
pub mod Wifi
pub mod Sysmon
