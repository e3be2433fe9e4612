-- ===== src/Ws.antt =====
-- lib/ws: the frames that the client sends and reads. `Wire` builds the envelopes, `Walk` and
-- `Decode` read frames, and `Ack` the replies to requests; the other children are about them.
pub mod Wire
pub mod PingWheel
pub mod Walk
pub mod Json
pub mod Ack
pub mod Decode
pub mod Channel
pub mod Fields
pub mod Enough
pub mod Parts
pub mod Read
pub mod View
pub mod Sent
pub mod Events
pub mod Reaction
pub mod Sticker
pub mod References
pub mod Replies
pub mod Requests
pub mod Acks
pub mod Rounds
pub mod Received
pub mod Message
pub mod Leb
pub mod Content
pub mod Post
pub mod Posted
pub mod Conn
pub mod Dial
mod Tests
