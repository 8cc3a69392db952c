-- ===== src/Lib.antt =====
-- The utility library hy_utils (C), modelled from its sources.
--
-- Parts, and the files that model them:
--   Base   shared types and lemmas: Boolean tests, lists over the native numbers, machine words, and
--          byte arrays with `memcpy` and `memset`, where an access out of bounds is `none`.
--   Bits   lemmas on masks and powers of two.
--   Fifo   src/hy_fifo.c and include/hy_fifo.h, the byte ring; `Fifo` is `_fifo_context_t` and each
--          `hy_fifo_*` is the function HyFifo* of that name. Window, Slices and Inv hold the representation,
--          Put and Get the two copies, Queue the abstract queue, Refine and Run how the ring implements it, Create and
--          Info the rest.
--   HyList include/hy_list.h, the intrusive doubly linked lists, over a memory of `next` and `prev`
--          pointers (`Links`); each `list_*` is the function of that name, and a name that ends in
--          `_between` is the function whose name starts with two underscores. Ring says what a head
--          stands for, Arcs cuts it open; Edit, Moves, Splice, Cut and Walk follow the functions.
--          Hlist is the lists with a single pointer in their head, and each `hlist_*` is its function.
--   Hash   src/utils_hash.c, the hash table; `Context` is `hash_context_t`, `Item` is `item_t`, each
--          `utils_hash_*` is the function UtilsHash* of that name, and the others are the functions whose names
--          start with an underscore. `Hal` is what the code calls of the library below it. Key is about
--          hashes and bucket numbers, Chain about one bucket, Table about the table as a map,
--          Operations about adding, deleting and getting, Life about making and destroying.
--   AtUtils src/hy_at_utils.c and include/hy_at_utils.h, the AT command engine; `AtUtils` is
--          `at_utils_context_t`, `Env` is the ring and the blocks it works on, each `hy_at_utils_*` is the
--          function HyAtUtils* of that name. Frame has the searches and the frames with data, Engine the cases of
--          the switch in `_read_handle`, Read the round and the loop of `_read_handle`, Process
--          `_write_handle` and HyAtUtilsProcess. Ring says what a ring must do, and that the one of
--          src/hy_fifo.c does it; Receive, Deliver, Header, Arrive, FirstRound and WholeFrame follow a
--          frame, Queued, Rounds and Bounded the list of commands, Commands and Answers a command;
--          Limits says where the engine stops.
--   Md5    src/hy_md5sum.c, the MD5 sum; Block is about the padded message, Digest about the
--          bytes of the sum, Total says that it is computed, Pack that words are read back.
--   Timer  src/hy_timer.c, the timer wheel; `Wheel` is `_timer_context_t`, each `hy_timer_*` is the
--          function HyTimer* of that name, `tick` is one round of the loop in `_timer_loop_cb`. Round and
--          Turn give a round in closed form, Count, Due, Wait and Time say when a timer is called, Delete is
--          about HyTimerDel, Manage about making a wheel and a loop that does not end.
--   Utils  src/hy_utils.c: bit strings, and the loops that write and read a whole buffer, which run over
--          the list of what the system calls return. Digits is bytes as three decimal digits each,
--          with a turn of fuel for each call of sscanf. Whole, BitString, RoundTrip, Digits.Text and
--          Digits.BackAgain hold the theorems.
--   BitArray src/hy_bit.c, the bits of a byte array.
--   Sort   src/hy_sort.c, the bubble sort; Pass is about one pass, Sorted about the whole. Quick has the
--          quick sort, whose parts of the array are given by `low` and a number of items; Region, Partition and
--          Returns say that it ends and where it writes.
--   StrCopy src/hy_string.c, copies of what stands behind a separator; Scan is about the loop, Behind
--          about the copy.
--
-- The ring's positions are 64-bit words that run on past the size and wrap; its size is a power of two
-- of at most 2^31, as HyFifoCreate makes it. Lengths that the code keeps in 32 bits are cut to 32 bits.
-- `_HyUtilsNumTo2N2` runs on 32 rounds of fuel, one for each bit. The loops over a list run on fuel,
-- and end when it is more than the number of entries.
-- The results of `malloc` are parameters. Logging is left out. The byte arrays of the ring and
-- of its callers are separate blocks.
-- A round of the wheel runs on fuel, of which one more than the number of timers is enough. Its
-- callbacks are recorded and change nothing; no other thread runs during a round.
-- Both loops of the sort have a step of fuel for each item, which is enough below 2^32 items.
-- The quick sort has a step of fuel for each item and one more.
-- In a list every address is taken to hold a node.
-- The sorts keep a length of an item, and quick sort the offset of an item, in 32 bits; where they do not
-- fit, the model gives `none` in place of the parts of items that the code then goes over.
-- The loop of `_read_handle` runs on a round of fuel for each byte of the frame and one more, which is
-- enough to receive it. Bytes that another thread puts into the ring during a call are seen by the next.
-- The MD5 sum has 64 steps of fuel for the length of the padded message, and a round for each chunk
-- and one more; both are enough below 2^60 bytes.
-- The hash table is used by one thread at a time, and its `int` arithmetic wraps at 32 bits.
--
-- Not modelled: calls of the operating system and of other libraries, the example programs, and the
-- parts of the library named in none of the files above.
pub mod AtUtils
pub mod Base
pub mod Bits
pub mod Fifo
pub mod HyList
pub mod Hash
pub mod Md5
pub mod Timer
pub mod Utils
pub mod BitArray
pub mod Sort
pub mod StrCopy
