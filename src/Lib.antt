-- ===== src/Lib.antt =====
-- Verification of the protocol library of VentMac, the C code of Sources/CVentrilo3: a client of
-- Ventrilo 3 servers.
--
-- A client first exchanges datagrams with the game server and an auth server and gets a key
-- (ventrilo3_handshake.c). It then opens a TCP connection, on which every message is framed by its
-- length and encrypted (libventrilo3.c with ventrilo_algo.h). The contents of messages are strings,
-- arrays and packed structures (libventrilo3_message.c). The messages fill lists of channels, users,
-- ranks and accounts, and queue events, which the user interface takes from another thread
-- (libventrilo3.c).
--
-- - Prelude: Boolean tests, lists over the native numbers, casts of C, and the operators of chains
--   that may fault. Its children hold each of these.
-- - Crypt (ventrilo_algo.h): ventrilo_enc, ventrilo_dec, ventrilo_first_enc, ventrilo_first_dec and
--   ventrilo_read_keys over KeyCtx, which is ventrilo_key_ctx. Every loop recurses on the number of
--   rounds left. Transport and Handshake use its key context.
-- - Handshake (ventrilo3_handshake.c): getbe, putbe, ventrilo3_send_udp, ventrilo3_recv_udp, the
--   wait of ventrilo3_handshake and ventrilo3_algo_scramble. The datagrams that arrive and the times
--   of their rounds are a list, on which the wait recurses.
-- - Transport (libventrilo3.c): _v3_send, _v3_send_enc_msg, _v3_recv_enc_msg,
--   _v3_close_connection and the part of _v3_recv that takes a message from the network. A socket is
--   a record of the operations `send` and `recv` of the system, with what is relied on as
--   hypotheses: `recv` gives at least one byte and at most as many as asked for while the stream
--   lasts. The loop that reads a message has as much fuel as it lacks bytes, since every round gives
--   one or ends it.
-- - Wire (libventrilo3_message.c): _v3_get_msg_string, _v3_put_msg_string and their kind for arrays,
--   users, channels, ranks and accounts, _v3_strip_c0_set and _v3_parse_filter. The bytes of a packet
--   are a list, and a read past its end is a fault, although the C code does not check for it.
-- - Roster (libventrilo3.c): _v3_update_channel, _v3_update_user, _v3_update_rank,
--   _v3_update_account, the functions that remove, look up, copy and destroy entries, over the four
--   lists and _v3_user_volumes; in Roster/Tree v3_get_channel_sort,
--   v3_channel_requires_password, v3_is_channel_admin, v3_get_channel_path and v3_get_channel_id. The
--   walks to the root recurse on fuel; in a tree the depth of the channel is enough.
-- - Codecs (libventrilo3.h, libventrilo3.c): v3_codecs, v3_get_codec, v3_get_codec_rate,
--   v3_get_channel_codec and v3_max_pcm_frames.
-- - EventQueue (libventrilo3.c): _v3_create_event, v3_queue_event, v3_get_event, v3_free_event,
--   v3_clear_events and _v3_get_last_event, on a heap of nodes with addresses. The loop that clears
--   the queue has the stored length as fuel.
-- - Handlers (libventrilo3.c): _v3_process_message, one function process_0xNN per case, in children for
--   users, the user list, channels, the rank and user editors, chat and the connection, with
--   _v3_logout; Dispatch is the switch. Handlers/Properties is the case 0x4c, by itself, over the
--   properties of the server; atoi and snprintf of "%u" are parameters, which are relied on to be
--   inverse below 2 ^ 31. A handler gives the new state, the packets it sends and the events it queues, with the
--   channel that v3_queue_event leaves in them.
--   Handlers/Login is v3_login from the connection on, over the list of the messages that come.
--   Handlers/Mirror replays the events to what a client knows. The lists are those
--   of Roster, the keys those of Crypt and Handshake; that the events reach the client in this order
--   is the matter of EventQueue.
--
-- - Messages (libventrilo3_message.c): the functions _v3_get_0xNN and _v3_put_0xNN of each type of
--   message, over the structures of Wire, with what is allocated, written and sent; Messages/Incoming
--   is the switch that calls the parsers, Messages/Outgoing brings the builders together.
--   Messages/Password is _v3_hash_password (libventrilo3.c), whose search for a byte has a fuel of
--   four. What lies behind a message that `realloc` extends is a parameter. Messages/RoundTrip joins
--   builders to parsers, and to the handlers of Handlers.
-- - Requests (libventrilo3.c): the public functions v3_join_chat to v3_rank_remove, which write events
--   into the pipe (Requests/Write, Requests/Admin, together in Requests/Calls), and the half of
--   _v3_recv that reads them there and sends messages (Requests/Serve); `rand` and "%u" are
--   parameters. They use the lists of Roster, the client of Handlers and the builders of Messages;
--   Requests/Travels follows calls from the function to the bytes on the socket. The function
--   `write` of the pipe keeps the order of events and loses none; a logout closes the pipe.
--
-- A fault, which is an access out of bounds, through NULL or to freed memory, is `none`. Integers of
-- the code wrap around where it computes with them. The host is little-endian, where a `memcpy`
-- moves a number. Allocation succeeds. Each call runs as a whole under its mutex, so threads are
-- orders of calls.
--
-- Not modelled: the case 0x52 of _v3_process_message with the builder and the parser of sound, the
-- events of the microphone, the builders of the handshake (0x00) and of the hash table (0x5c), the
-- functions that free a parsed message, the start of a login (names, sockets), the coding of audio,
-- recordings in files, the creation of mutexes, logging, and the client in Swift. GSM, Speex, Opus
-- and the copy of the project Mangler under Vendor are other projects.
pub mod Prelude
pub mod Crypt
pub mod Transport
pub mod EventQueue
pub mod Wire
pub mod Handshake
pub mod Roster
pub mod Codecs
pub mod Handlers
pub mod Messages
pub mod Requests
