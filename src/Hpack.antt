-- ===== src/Hpack.antt =====
-- HPACK, the header compression of HTTP/2: src/http2/aws-http2-hpack.adb and its children.
mod Outcome
mod Codes
mod Huffman
mod Integers
mod Table
mod Headers
mod Tests
