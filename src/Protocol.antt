-- ===== src/Protocol.antt =====
-- src/vr_client.c, requests: the query buffer of a client, the parsers of the two request forms and
-- the loop that runs them. A string is the list of its bytes, `none` in `bulklen` is the code's -1,
-- a flag is a Boolean.
mod State
mod Inline
mod Multibulk
mod Input
mod Tests
