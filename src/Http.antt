-- ===== src/Http.antt =====
-- src/framework/http: the frames and the header compression of HTTP/2.
pub mod Framer
pub mod Hpack
