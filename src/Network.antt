-- ===== src/Network.antt =====
-- Several nodes: what one sends, another handles. A node's datagrams carry its address as sender.
pub mod Paths
pub mod Journey
pub mod SourceRoute
pub mod LabelRoute
pub mod ReplyRoute
pub mod Hops
pub mod Answer
pub mod RequestRoute
pub mod RoundTrip
pub mod Truth
pub mod Asked
pub mod System
