-- ===== src/Pipeline.antt =====
-- writer.go, sink.go and the broker together: what a program publishes, up to the handler of a sink.
pub mod Publishing
pub mod Delivered
mod Tests
