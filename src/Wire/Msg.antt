-- ===== src/Wire/Msg.antt =====
-- src/protocol/protocol.h: `ct_msg_type`, each message by its number on the wire.
use Prim.Native.Nat.{ℕ}

abbrev pub client_hello : ℕ
client_hello = 1

abbrev pub server_hello : ℕ
server_hello = 2

abbrev pub client_auth : ℕ
client_auth = 3

abbrev pub auth_ok : ℕ
auth_ok = 4

abbrev pub auth_failed : ℕ
auth_failed = 5

abbrev pub register_service : ℕ
register_service = 10

abbrev pub register_ok : ℕ
register_ok = 11

abbrev pub register_failed : ℕ
register_failed = 12

abbrev pub unregister_service : ℕ
unregister_service = 13

abbrev pub request_work_connection : ℕ
request_work_connection = 20

abbrev pub work_connection_bind : ℕ
work_connection_bind = 21

abbrev pub start_stream : ℕ
start_stream = 22

abbrev pub stream_ready : ℕ
stream_ready = 23

abbrev pub stream_failed : ℕ
stream_failed = 24

abbrev pub close_stream : ℕ
close_stream = 25

abbrev pub udp_datagram : ℕ
udp_datagram = 26

abbrev pub udp_session_close : ℕ
udp_session_close = 27

abbrev pub udp_error : ℕ
udp_error = 28

abbrev pub ping : ℕ
ping = 30

abbrev pub pong : ℕ
pong = 31

abbrev pub error : ℕ
error = 32

abbrev pub goaway : ℕ
goaway = 33
