-- ===== src/Lib.antt =====
-- A chat and push server: devices connect over TCP, say who they are, and send messages to other
-- devices; the server keeps messages and presence in Redis and delivers what waits.
--
-- The parts, and the files that model them (paths from the repository's root):
-- - server/messagestorage.c: MessageStorage. Messages are hashes, queues are lists, a connected
--   device is a hash "<id>_content". Records holds the structures and the loops that fill them
--   from a reply, Keys the names of the keys, Put the older `putmessageinfo`, `newClient` and the
--   delayed queue; Lookup, Routing, Scan, Queues and Presence the proofs.
-- - server/parse_command.c and server/sc.h: ParseCommand. Header has the two headers, Helo the
--   greetings, Message the text messages, Store the storing of a message for each of its
--   recipients, Transfer the loops around `send`.
-- - server/extended_protocol.c: AccountProtocol, the requests and replies of accounts in JSON.
--   Requests has what the server does with a request (`parseClientUser...`), Replies what it
--   answers (`createServerUser...`) and how the client reads that (`parseServerUser...`).
-- - server/extended_storage.c: Accounts, with registration and login in Register and Login.
-- - server/redis_pool.c: RedisPool, the pool of connections that every operation on Redis uses.
--   `getRedis` is `get_redis`, `returnRedis` is `return_redis`; Reach has the runs of calls.
-- - server/thread_pool.c: ThreadPool. A thread is a place of `thr_id`; Order has the runs and the
--   queue, Invariant and Count the counters.
-- - server/server.c: Server. Table has the clients, with `new_connection`, `close_socket` and the
--   pass of `check_time_out_thread`; Delivery has `pushlist_send_thread`, `sendMessage` and
--   `send_helo_to_client_message` as actions on Redis; the last runs on fuel, one more than the
--   unread messages, which is enough if every sending returns. Dispatch has `read_thread_function`, which serves what a client sent: it
--   calls ParseCommand, AccountProtocol and MessageStorage, and changes the table. Loop has what
--   the loop of `main` does with the events of one `epoll_wait`: it changes the table, and hands
--   clients to ThreadPool.
-- - server/client.c: Client, what a client does with what it receives: one turn of
--   `message_processer`.
-- - server/readconf.c: Readconf, the search for a setting; Written has the files that are printed
--   from sections. server/daemon.c: Config, of which `read_config` fills the settings.
-- - server/ippush.c: Apns, the tokens, the payload and the packets of the Apple push service.
-- - server/util.c: Util, with `getFileName`, `createfullpath` and `split`.
-- - SendList states what the program relies on of server/list.c, a copied library.
-- - Redis states what it relies on of the Redis server and of the hiredis client: the reply to
--   each command and its effect on one key, as an interface that Redis/Instance fills.
-- - Json states what it relies on of cJSON: an object is printed and read back, and the items are
--   found by their names; Json/Instance fills it with trees.
-- - Base holds lists, octets, decimal numbers and tests that the parts share; Tests applies the
--   theorems at concrete inputs.
--
-- Choices. A C string is its bytes without the last zero. An operation on Redis runs on one
-- connection that is up, and counts the replies that it leaves, so a pipeline that reads too few
-- is seen. The host is little endian. What a function finds on the heap or in an uninitialised
-- variable is an argument, as are the clock, random numbers and new ids. What other threads do
-- while `getRedis` waits is a list for each attempt. The waiting loop runs on fuel, which the
-- theorem on its end shows to be enough for every pool with a worker; the loops that take a list
-- apart are structural, or on the length of the list.
--
-- Arrays that the source writes without a test: where a text is longer than its array of 64 bytes,
-- ParseCommand/Store, AccountProtocol/Replies and Client end in `crashed`, and Dispatch in
-- `undefined` for a device id; the records of MessageStorage and of Accounts have room for any
-- text. The sockets of clients do not wait, so a read of what has not arrived fails.
--
-- A step of the pool of threads is a part of the source that holds its lock; the counters that the
-- source changes outside of the lock are changed with that step, so a lost update is not seen.
--
-- Not modelled: sockets, epoll, threads and logging, the start and the end of `main`, the file
-- branches of the parsers, the functions of server/daemon.c on processes, how the client connects,
-- pings and sends, the Android client, the database logic and copied libraries.
pub mod AccountProtocol
pub mod Accounts
pub mod Apns
pub mod Base
pub mod Client
pub mod Config
pub mod Json
pub mod MessageStorage
pub mod ParseCommand
pub mod Readconf
pub mod Redis
pub mod RedisPool
pub mod SendList
pub mod Server
pub mod Tests
pub mod ThreadPool
pub mod Util
