-- ===== src/Resolver.antt =====
-- src/resolver.c, src/transport.c, src/request_id.c and src/uri_parser.c: questions to the number
-- portability servers over UDP. The children hold the datagrams (Message, with its laws in Wire),
-- the endpoint list (Endpoints) and the call itself (Resolve, with its laws in Answers, Failover and Rounds).
pub mod Message
pub mod Texts
pub mod Wire
pub mod Uri
pub mod Address
pub mod Endpoints
pub mod Listing
pub mod Resolve
pub mod Answers
pub mod Rule
pub mod Failover
pub mod Provenance
pub mod Turns
pub mod Rounds
pub mod Sending
pub mod Served
pub mod Delivery
pub mod Errors
pub mod Steady
pub mod Setting
mod Tests
