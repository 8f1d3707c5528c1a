-- ===== src/Wire.antt =====
-- src/protocol/protocol.c and protocol.h: the wire format. Its parts are child modules: integers in
-- network byte order, the frame header, strings, the header of a data record, and the request that
-- registers a service.
pub mod Ints
pub mod Msg
pub mod Buffer
pub mod Header
pub mod Text
pub mod Record
pub mod Register
mod Tests
