-- ===== src/Node.antt =====
-- src/framework/node: the node protocols. `Envelope` is the wire codec of messages, `Router` their
-- router; `Trust` is the trust store, `LinkWire` the wire codec of links and `Link` a link.
pub mod Envelope
pub mod Router
pub mod Trust
pub mod LinkWire
pub mod Link
