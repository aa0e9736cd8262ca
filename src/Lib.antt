-- ===== src/Lib.antt =====
-- libcperciva: a verification library for the data structures, codecs and ciphers of the repository.
--
-- The program is a collection of C modules that other programs copy. Those modelled here, from
-- the bottom up:
--   * datastruct/elasticarray.c (ElasticArray): a byte array that grows and shrinks. `resize`,
--     `append`, `shrink`, `truncate`, `export`, `exportdup` and the others are the functions
--     `elasticarray_*` and the static `resize`; `resize_records` is `elasticarray_resize`. The
--     state is the structure with its buffer as a list of cells, in which a byte that nothing was
--     stored in is `none`. The answer of the allocator is an argument.
--   * datastruct/elasticqueue.c (ElasticQueue): a queue of records over an elastic array. The
--     loop of `elasticqueue_delete` is `move_records`, its rest `settle`.
--   * datastruct/ptrheap.c (PtrHeap): a heap of pointers, over an elastic array of pointers that
--     the model keeps as a list. The callbacks are an argument, and the memory that
--     `setreccookie` writes is threaded through every call.
--   * datastruct/seqptrmap.c (SeqPtrMap): a map from consecutive integers to pointers, over an
--     elastic queue. The loop of `seqptrmap_delete` is `purge`; a pointer is its eight cells.
--   * datastruct/timerqueue.c (TimerQueue): timers, over a pointer heap. The records are addresses,
--     and their fields are maps; `callbacks` are `compar` and `setreccookie`.
--   * datastruct/mpool.h (MemPool): the cache of freed objects; MemPool.Owners has the lifetime of
--     a pool and of the objects of its client as a relation.
--   * util/sysendian.h (SysEndian), util/hexify.c (Hexify), util/b64encode.c (Base64): codecs.
--   * alg/sha256.c (Sha256), alg/sha1.c (Sha1), alg/md5.c (Md5): the hash functions, HMAC and
--     PBKDF2. Digest has what the files do alike: `absorb` is the end of the update functions,
--     Digest.Pair the context with a count in two words, Digest.Hmac the functions `HMAC_*`, which
--     take the functions of a hash as a record (Digest.Hash) and its laws for the proofs. The
--     hashes are compared with the compression of the padded message block by block
--     (Digest.Blocks, Digest.Padding).
--   * crypto/crypto_aesctr.c, crypto/crypto_aesctr_shared.c (AesCtr): counter mode over the
--     encryption of a block as a parameter, of which only the length of a block is assumed. A
--     NULL key is `none`; the position in the three buffers is a `Progress`.
--   * crypto/crypto_entropy.c (CryptoEntropy): the generator HMAC_DRBG over the model of HMAC. The
--     n-th answers of `entropy_read` and of RDRAND are functions of n; the bytes stored are a list.
--   * netbuf/netbuf_read.c (NetbufRead): the buffered reader as a state machine. The calls of
--     `malloc`, the network and the event layer are answered by arguments; NetbufRead.Bytes has
--     its runs as a relation.
--   * netbuf/netbuf_write.c (NetbufWrite): the buffered writer. A copy through the pointer that a
--     reservation returns is `store_last`; NetbufWrite.Bytes has its runs.
--   * network/network_read.c, network/network_write.c (NetworkIo): one read or write of a buffer.
--     `recv` and `send` are a parameter (`Socket`), which the callbacks call with the arguments of
--     the source; `receive` and `transmit` call the callbacks until there is a result.
--   * events/events_immediate.c (ImmediateEvents): the queues of immediate events. The static
--     variables are the state, and a linked list is the list of its nodes.
--   * util/json.c (Json): the search for a name in the text of a JSON object. A pointer into the
--     text is the list of the bytes that follow, and moving it beyond the end aborts. Json.Grammar
--     has the JSON texts that Json.Values and Json.Search are about.
--   * util/humansize.c (HumanSize): sizes printed and parsed; the cases of the `switch` in
--     `humansize_parse` are one function each, and call the case that they fall through to.
--
-- A call ends in `done` with its results, in `fail` for the error return (-1 or NULL, with the
-- object as it was), or in `abort` for a failed assertion, an access outside a buffer or used up
-- fuel (Prelude.Ending). `Returns P r` says that a call is done and its result satisfies `P`;
-- `Keeps P r` allows the error return as well. Both exclude `abort`.
--
-- Integers are natural numbers with the wrap of the C type written out; `size_t` has 64 bits.
-- The heap holds fewer than 2 ^ 61 pointers of eight bytes, the most that the array's size in
-- bytes allows. Fuel: `heapifyup` from position `i` gets `i + 1` rounds and `heapify` below `n`
-- gets `n + 1`, as each round at least halves or raises the position; the loops over a text get
-- one more than its length, as each round uses a character, and so does the depth of the nesting
-- of JSON values; the loop of `seqptrmap_delete` gets one more round than there are pointers; the
-- loop of `humansize` gets 6 rounds, each of which divides by 1000, for a size below 2 ^ 64.
-- The loop over complete blocks gets as many rounds as there are bytes, the loop of PBKDF2 one
-- more than `dkLen`, that of counter mode one more than `buflen`, and the search for a priority
-- gets 33, each more than it can use. The loops of the random generator get one more round than
-- there are bytes, of which each round stores at least one.
--
-- Not modelled: the choice of hardware variants of hashes and ciphers, the calls that clear the
-- stack, the calls that only free memory, and the parts of the repository that are I/O,
-- glue to OpenSSL, processor intrinsics, or tests.
pub mod Prelude
pub mod ElasticArray
pub mod ElasticQueue
pub mod SeqPtrMap
pub mod MemPool
pub mod PtrHeap
pub mod TimerQueue
pub mod SysEndian
pub mod Hexify
pub mod Base64
pub mod Digest
pub mod Sha256
pub mod Sha1
pub mod Md5
pub mod AesCtr
pub mod CryptoEntropy
pub mod NetworkIo
pub mod NetbufRead
pub mod ImmediateEvents
pub mod NetbufWrite
pub mod Json
pub mod HumanSize
mod Tests
