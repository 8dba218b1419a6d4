-- ===== src/Examples.antt =====
-- Tests of the definitions on small inputs, and the theorems at inputs that meet their conditions.
mod Analyzers
mod Accesses
mod Reviews
mod Files
mod Syntax
mod Breaker
mod Review
mod Worker
mod Posting
mod Backoff
mod Client
mod Chunker
