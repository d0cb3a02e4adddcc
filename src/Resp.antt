-- ===== src/Resp.antt =====
-- The RESP front end of a node: the parser (Resp/Parser.antt, on the text of Resp/Text.antt), the
-- encoders (Resp/Encoder.antt), the commands (Resp/Server.antt), the loops of a connection
-- (Resp/Connection.antt), and the proofs about them.
pub mod Text
pub mod Parser
pub mod Encoder
pub mod Server
pub mod Connection
pub mod Bounds
pub mod Deletion
pub mod Depth
pub mod Commands
pub mod Progress
pub mod Numbers
pub mod Lines
pub mod BulkString
pub mod Scalars
pub mod RoundTrip
pub mod Stable
pub mod Pipeline
pub mod Overflow
