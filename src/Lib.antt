-- ===== src/Lib.antt =====
-- A model of vire, a multithreaded server that speaks the protocol of Redis, and its theorems.
--
-- Parts and files (paths from the repository's root):
-- - Dict, src/vr_dict.c and vr_dict.h: `Dict` has the two tables `ht0` and `ht1` of `dict`; a
--   bucket is a list of entries, the NULL table the empty list, and `rehashidx` is `none` for -1.
--   `rehash` is dictRehash (with its limit of 10 empty visits a step), `add` dictAdd, `replace`
--   dictReplace, `delete` dictGenericDelete, `find` dictFind, `empty` dictEmpty. Hashing, comparing
--   and copying of keys are the caller's callbacks: `DictType`, a record with what they must obey. The
--   index of _dictKeyIndex is an `int` of 32 bits; sizes and counts are `unsigned long` in C, natural
--   numbers here, and theorems on growth bound them below LONG_MAX.
-- - Util, src/vr_util.c, numbers as text: digits10, ll2string (in place, on a buffer) and string2ll;
--   `Util/Memory` is memtoll, whose product wraps beyond 64 bits, where C leaves it undefined.
-- - Glob, src/vr_util.c, stringmatchlen: `Glob/Class` is what one place of a pattern says of one
--   character, the class between brackets included, `Glob/Match` the loop over the pattern. A string
--   is the bytes that are left, or `past`, where its length is negative; the result is `none` where
--   the code reads behind the byte of 0 that ends the pattern or the string. `char` is signed.
-- - Intset, src/vr_intset.c and vr_intset.h: a set is its encoding, its length and the bytes of its
--   array. `search`, `add` (with `upgrade_and_add`, in place), `remove` and `find` are intsetSearch,
--   intsetAdd, intsetRemove and intsetFind. What fresh memory holds is a parameter, `junk`.
-- - Slowlog, src/vr_slowlog.c and vr_slowlog.h: the entries, newest first, and the next id. `push` is
--   slowlogPushEntryIfNeeded, `create_entry` slowlogCreateEntry, `reset` slowlogReset and `sent` what
--   SLOWLOG GET sends. The texts of sdscatprintf are parameters.
-- - Protocol, src/vr_client.c: `Protocol/State` has the fields of `client` that the parsers use,
--   `Protocol/Inline` is processInlineBuffer, `Protocol/Multibulk` processMultibulkBuffer (its
--   position in the buffer is `at`), `Protocol/Input` processInputBuffer, whose result is the list
--   of commands handed to processCommand. sdssplitargs and processCommand are parameters, and
--   what a theorem needs of processCommand is a record of laws (`Dispatches`).
--   `Protocol/Input/Dispatch` is the start of processCommand in src/vr_command.c, which answers QUIT;
--   the rest of it is a parameter, and `Serves` the laws of that. The length of a buffer
--   is cut to an `int` where C casts it (`passes_end`). Positions are natural numbers: the server
--   frees a client whose buffer exceeds PROTO_MAX_QUERYBUF_LEN, 1 GB, so they fit an `int`.
-- - Multi, src/vr_multi.c and the end of processCommand in src/vr_command.c: `Multi/State` has the
--   clients and the databases, each by its number, with a database's watched_keys as a list of pairs
--   (what dictFetchValue, dictAdd and dictDelete make of a dictionary); `Multi/Watch` is watchForKey,
--   unwatchAllKeys, touchWatchedKey and touchWatchedKeysOnFlush, where `none` is a failed assertion;
--   `Multi/Transaction` is MULTI, EXEC, DISCARD, WATCH and the queue. An `Event` is a command that
--   processCommand lets through or refuses, or a flush; `run` performs a list of them, in any
--   interleaving of the clients. What another command does is a parameter: the keys it modifies.
-- - Base has names of the libraries, Boolean tests, lists with native indices, bits, integers,
--   memory as a list of bytes.
--
-- Bounds: `next_power_loop` takes 61 doublings, which pass every size below LONG_MAX; `print_loop`
-- takes 10 rounds of two digits and `digits10` two levels, which hold every 64-bit number. A read
-- outside a table gives an empty bucket; the invariant keeps every index inside.
-- `match_loop` takes one round for each byte of its pattern, and so does `class_loop`.
-- `input_loop` takes as many rounds as the buffer has bytes, since each round takes a byte.
--
-- Not modelled: sockets, threads, files and memory allocation (an allocation always succeeds), and
-- the libraries under dep/ that are copies of other projects.
pub mod Base
pub mod Dict
pub mod Glob
pub mod Intset
pub mod Multi
pub mod Protocol
pub mod Slowlog
pub mod Util
