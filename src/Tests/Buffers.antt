-- ===== src/Tests/Buffers.antt =====
-- netbuf/netbuf_read.c, netbuf/netbuf_write.c, network/network_read.c, network/network_write.c and
-- events/events_immediate.c on short runs.
use libcperciva.Prelude.{
  List, inl, ℕ, ◌+◌, ◌≡◌, refl, arith, [], ◌∷◌, ◌++◌, map, true, false, none, some, done, Cell,
  ◌>>=◌, Returns, take, drop, replicate, memcpy,
}
use libcperciva.NetbufRead.{
  Reader, Pending, available, init2, peek, wait, callback_read, consume, make_room, enlarge,
  place_data, start_read,
}
use libcperciva.NetbufRead.Valid.{Valid}
use libcperciva.NetbufRead.Bytes.{Run, start, waited, read, consumed, Run_in_order}
use libcperciva.NetbufWrite as Output
use libcperciva.NetbufWrite.{
  WriteBuf, Writer, write, writbuf, reserve, has_room, store_last, advance_last, poke, poke_first,
  start_write, written,
}
use libcperciva.NetbufWrite.Valid.{data_of}
use libcperciva.NetbufWrite.Poke.{Works, queued, HasQueued}
use libcperciva.NetbufWrite.Bytes as Lifetime
use libcperciva.NetbufWrite.Bytes.{write_queues, Run_sends}
use libcperciva.NetworkIo.{Socket, Sent, bytes, try_later, taken, network_read, network_write}
use libcperciva.NetworkIo.Read as Reading
use libcperciva.NetworkIo.Read.{network_read_ends}
use libcperciva.NetworkIo.Write as Writing
use libcperciva.NetworkIo.Write.{network_write_ends}
use libcperciva.ImmediateEvents.{Events, initial, register, get, advance, take_first}
use libcperciva.ImmediateEvents.Order as Order
use libcperciva.ImmediateEvents.Order.{register_behind, get_first, events, concat, TakesOff}

-- A reader with callbacks that are numbers.
abbrev fresh : Reader ℕ
fresh = record {
  callback = none;
  read_cookie = none;
  immediate_cookie = false;
  buf = replicate 4096 none;
  buflen = 4096;
  bufpos = 0;
  datalen = 0;
}

abbrev asked : Pending
asked = record { room = 4096; at_least = 2 }

abbrev reading : Reader ℕ
reading = record fresh { callback = some 8; read_cookie = some asked }

abbrev filled : Reader ℕ
filled = record fresh {
  callback = some 8;
  buf = memcpy (replicate 4096 none) 0 (some 65 ∷ some 66 ∷ some 67 ∷ []) 3;
  datalen = 3;
}

abbrev rest : Reader ℕ
rest = record filled { bufpos = 2 }

-- A wait for two bytes, a read of three, and the consumption of two.
short_run : Run ℕ (65 ∷ 66 ∷ 67 ∷ []) (take 2 (peek filled)) rest
unfolding init2 wait callback_read consume make_room enlarge place_data start_read peek memcpy
short_run =
    consumed [] filled rest 2
      (read filled asked 65 (66 ∷ 67 ∷ []) (some 8) available
        (waited reading true true true 2 8 (start fresh refl) refl refl (omega arith) refl) refl
        (omega arith) refl)
      (omega arith) refl

Run_in_order_example :
    Valid rest × (take 2 (peek filled) ++ peek rest ≡ map some (65 ∷ 66 ∷ 67 ∷ []))
Run_in_order_example = Run_in_order ℕ (65 ∷ 66 ∷ 67 ∷ []) (take 2 (peek filled)) rest short_run

abbrev empty_writer : Writer
empty_writer = record {
  reserved = false;
  failed = false;
  buffers = [];
  write_cookie = false;
  curr = none;
}

abbrev two_bytes : WriteBuf
two_bytes = record {
  buf = memcpy (replicate 4096 none) 0 (some 65 ∷ some 66 ∷ []) 2;
  buflen = 4096;
  datalen = 2;
}

abbrev sending : Writer
sending = record empty_writer { write_cookie = true; curr = some two_bytes }

-- A write of two bytes and its completion.
short_write : Lifetime.Run (65 ∷ 66 ∷ []) (data_of two_bytes) empty_writer
unfolding Output.init2 write writbuf reserve Output.consume has_room store_last advance_last poke
    poke_first start_write written memcpy
short_write =
    Lifetime.completed (65 ∷ 66 ∷ []) [] sending empty_writer true true two_bytes
      (Lifetime.wrote [] [] empty_writer sending true true (65 ∷ 66 ∷ [])
        (Lifetime.start empty_writer refl) (omega arith) (omega arith) refl)
      refl refl

Run_sends_example :
    Works empty_writer × (data_of two_bytes ++ queued empty_writer ≡ map some (65 ∷ 66 ∷ []))
Run_sends_example = Run_sends (65 ∷ 66 ∷ []) (data_of two_bytes) empty_writer short_write

write_queues_example :
    Returns
      (HasQueued (queued empty_writer ++ map some (65 ∷ 66 ∷ [])))
      (write true true empty_writer (65 ∷ 66 ∷ []))
write_queues_example =
    write_queues true empty_writer (65 ∷ 66 ∷ []) (refl, refl, tt, inl (refl, refl)) (omega arith)
      (omega arith)

-- A socket that gives and takes one byte at a time, with a log of what it has moved.
accept_one : List Cell → List Cell → List Cell × Sent
accept_one s [] = (s, try_later)
accept_one s (b ∷ bs) = (s ++ (b ∷ []), taken 1)

abbrev slow_reads : Socket (List ℕ)
slow_reads = record {
  recv = λ s n. (s ++ (65 ∷ []), bytes (65 ∷ []));
  send = λ s input. (s, try_later);
}

abbrev slow_writes : Socket (List Cell)
slow_writes = record { recv = λ s n. (s, try_later); send = accept_one }

slow_reads-Delivers : Reading.Delivers slow_reads (λ s. s)
slow_reads-Delivers s n h = (65, [], refl, omega arith, refl)

slow_writes-Accepts : Writing.Accepts slow_writes (λ s. s)
unfolding accept_one
slow_writes-Accepts s [] h = absurd (omega arith)
slow_writes-Accepts s (b ∷ bs) h = (1, refl, omega arith, omega arith, refl)

network_read_ends_example :
    Returns (Reading.Tells slow_reads (λ s. s) (8 ∷ []) 3 4) (
      network_read true true (replicate 4 none) 4 3 >>= λ c.
      Reading.receive slow_reads 5 (8 ∷ []) c)
network_read_ends_example =
    network_read_ends slow_reads (λ s. s) slow_reads-Delivers (8 ∷ []) (8 ∷ []) (replicate 4 none) 4
      3 5 refl refl (omega arith) (omega arith) (omega arith) (omega arith) (omega arith)

network_write_ends_example :
    Returns (Writing.Tells slow_writes (λ s. s) [] 3 4 (map some (65 ∷ 66 ∷ 67 ∷ 68 ∷ []))) (
      network_write true true (map some (65 ∷ 66 ∷ 67 ∷ 68 ∷ [])) 4 3 >>= λ c.
      Writing.transmit slow_writes 3 [] c)
network_write_ends_example =
    network_write_ends slow_writes (λ s. s) slow_writes-Accepts [] []
      (map some (65 ∷ 66 ∷ 67 ∷ 68 ∷ [])) 4 3 3 refl refl (omega arith) (omega arith) (omega arith)
      (omega arith) (omega arith)

-- Events that are numbers.
abbrev none_yet : Events ℕ
none_yet = initial

abbrev waiting : Events ℕ
waiting = record none_yet {
  heads = ((record { address = 1; event = 10; prio = 0 } ∷ []) ∷ replicate 31 []);
  minq = 0;
}

two_registered :
    (register none_yet (some 20) (some 2) 7 >>= λ r.
    register r.0 (some 10) (some 1) 3 >>= λ s. get s.0 >>= λ t. done t.1)
    ≡ done (some 10)
unfolding register get advance take_first
two_registered = refl

register_behind_example :
    Returns
      (λ end.
        Order.Valid end.0
        × (end.1 ≡ record { address = 5; event = 30; prio = 3 })
        × (events end.0
            ≡ concat (take (3 + 1) waiting.heads) ++ (end.1 ∷ concat (drop (3 + 1) waiting.heads))))
      (register waiting (some 30) (some 5) 3)
register_behind_example = register_behind waiting 30 5 3 (refl, omega arith, refl) (omega arith)

get_first_example : Returns (λ end. Order.Valid end.0 × TakesOff (events waiting) end) (get waiting)
get_first_example = get_first waiting (refl, omega arith, refl)
