-- ===== src/Tests/Repository.antt =====
-- The repository's own unit tests, each a definition that states what the test asserts, under the
-- test's name (`TestSetAndGet` for `test_set_and_get`).
mod Encoder
mod Parser
mod Server
mod Store
mod State
mod Health
mod HashRing
