-- ===== src/Lib.antt =====
-- A model of ctunnel, a reverse tunnel in C: a server publishes the services of clients behind NAT,
-- over one control connection per client and one work connection per stream.
--
-- The parts of the program and how they meet: the control connection carries frames, whose header,
-- strings and payloads src/protocol/protocol.c packs and reads; a client registers its services with
-- a payload of that format, and datagrams of UDP services travel in frames of their own; a stream of
-- a TCP service is relayed through rings of bytes, encrypted in records that a 12-byte header
-- precedes; sequence numbers that arrive out of order pass a sliding window; a client may send a PROXY
-- Protocol header ahead of a stream; counters record all of it. Server and client start from a
-- configuration file, the server also from the file of the clients that it admits, with the ports
-- that each may open.
--
-- The files, by the code they model:
--   Prelude, Prelude/*        notation and lemmas: Boolean tests, lists as buffers, bits, bytes
--   CString                   the functions of the C library on strings that the readers call
--   Types                     the structures of src/ctunnel.h
--   Wire/Ints                 ct_put_u16 to ct_get_u64 of src/protocol/protocol.c
--   Wire/Msg, Wire/Header     ct_msg_type, ct_frame_header_encode and ct_frame_header_decode
--   Wire/Text                 ct_pack_string and ct_unpack_string
--   Wire/Record               ct_data_record_header_decode
--   Wire/Register             ct_register_request_decode, and the payload of client_register
--                             (src/client/client.c)
--   Wire/Buffer               lemmas on a buffer that is filled from the front
--   Ring                      src/util/ring.c
--   Replay                    udp_replay_accept of src/server/server.c and src/client/client.c, and
--                             accept_work_sequence of src/net/net.c
--   Datagram                  ct_udp_endpoint_* and ct_udp_datagram_* of src/net/net.c
--   Proxy                     src/net/proxy_protocol.c
--   Metrics                   the counters of src/util/metrics.c
--   Relay                     encrypt_chunk, decrypt_ready and ct_relay_events of src/net/relay.c, in a
--                             build with CONFIG_FEATURE_DATA_ENCRYPTION
--   Relay/Process             ct_relay_process and what it calls, and ct_relay_close; what send and recv
--                             answer are the inputs of a step
--   Relay/Init                ct_relay_init
--   Config/Build              the limits and features of a build, with those ranges of src/Kconfig
--                             that the theorems use
--   Config/Values             the conversions of src/config/config.c, and ct_log_parse_level of
--                             src/util/log.c
--   Config/Options            set_common, set_service and set_default_log_file
--   Config/Validate           ct_config_validate
--   Config/Reader             the loop over the lines of a file
--   Config/Load               ct_config_load
--   Config/Authorized         ct_authorized_load, ct_authorized_find and ct_authorized_port
--   Auth                      the connections of src/server/server.c that have not authenticated yet,
--                             and auth_rate_slot with auth_rate_failed
--   Sessions                  the UDP sessions of src/server/server.c, from endpoint_equal to
--                             server_udp_expire
--   Sessions/Client           the UDP sessions of src/client/client.c
--   Sessions/Steps            sequences of what can happen to the server's sessions
--
-- A buffer is the list of its bytes, a pointer into it the list from there on, and a write returns the
-- list after it: a theorem that a buffer keeps its size says that nothing was written past its end. A
-- C string is the list of the bytes before its NUL. Numbers are natural numbers; where the code wraps
-- or truncates, the remainder by a power of two is written out. An int that is 0 or -1 is an Option
-- where results come with it, and a Bool, true for 0, beside a state that changes in both cases.
-- Loops are structural recursion, except that of decrypt_ready, which has the bytes that wait in its
-- ring as fuel: each round that goes on takes 28 of them at least; and that over the lines of a file,
-- which has one round more than the file has bytes, since fgets takes a byte or more off the file.
-- The model of the readers is that of a build for POSIX, in the "C" locale; a message is a constructor
-- with what it prints, and a pointer to the current section's entry is a flag, since that entry is
-- the last one.
--
-- A socket is a number, and so is a pointer to a service of the server, with a function that gives
-- what stands behind it. The limits of the build, such as CT_MAX_FRAME_PAYLOAD and CONFIG_UDP_REPLAY_WINDOW, are parameters.
-- So are inet_ntop and the conversion of numbers by snprintf, which are not part of the repository,
-- and the AEAD with the derivation of its keys, of which a theorem assumes at
-- most that opening undoes sealing and that a tag has 16 bytes. Of inet_pton the readers use only which texts are addresses. What malloc, send and recv return are inputs of the operations.
--
-- Not modelled: the handshake and the encryption of control frames, the event loops of server and
-- client, key files and base64, the checks on the permissions of files, logging, platform code,
-- command lines, and Monocypher, which is a copy of another project. strtol, fgets and their kin are
-- written out as the C standard has them, because the readers depend on what they do at every edge.
pub mod Prelude
pub mod CString
pub mod Types
pub mod Wire
pub mod Ring
pub mod Replay
pub mod Datagram
pub mod Proxy
pub mod Metrics
pub mod Relay
pub mod Config
pub mod Auth
pub mod Sessions
