-- ===== src/NetworkIo.antt =====
-- network/network_read.c, network/network_write.c: reads and writes that go on until enough bytes
-- were moved. `recv` and `send` are a parameter, and so is whether the event loop registers a
-- callback and whether there is memory; the cookie's callback is called where there is a result.
pub mod Read
pub mod Write
use libcperciva.Prelude.{
  ssize_max, ℕ, ◌+◌, ◌-◌, ◌^◌, List, [], ◌∷◌, ◌++◌, map, Bool, true, false, not, ltb, leb, ◌==◌,
  if◌then◌else◌, Option, none, some, Outcome, done, fail, ◌>>=◌, assert, Cell, length, take, drop,
  memcpy, size_t,
}

-- `struct network_read_cookie` and `struct network_write_cookie`.
pub record Cookie : Type 0 where
  pub buf : List Cell
  pub buflen : ℕ
  pub minlen : ℕ
  pub bufpos : ℕ

-- What the callback is told: a number of bytes, 0 or -1.
pub data Result : Type 0 where
  count : ℕ → Result
  eof : Result
  error : Result

-- What `recv` answers: the bytes it has stored, an error that is a try-again, or another error.
pub data Received : Type 0 where
  bytes : List ℕ → Received
  try_later : Received
  broken : Received

-- What `send` answers: the number of bytes it has taken, or an error.
pub data Sent : Type 0 where
  taken : ℕ → Sent
  try_later : Sent
  broken : Sent

-- The operating system's calls on a connected socket of state `S`: `recv` is given how many bytes
-- are wanted, and `send` the bytes from its pointer on, as many as its length says.
pub record Socket (S : Type 0) : Type 0 where
  pub recv : S → ℕ → S × Received
  pub send : S → List Cell → S × Sent

-- `network_read` and `network_write`: `memory` and `granted` say whether the cookie is allocated
-- and the event registered.
unfoldable pub start : Bool → Bool → List Cell → ℕ → ℕ → Outcome Cookie
start memory granted buf buflen minlen = assert (not (buflen == 0)) (
    assert (leb buflen ssize_max) (
      if memory
      then (if granted
          then done (record { buf = buf; buflen = buflen; minlen = minlen; bufpos = 0 })
          else fail)
      else fail))

abbrev pub network_read : Bool → Bool → List Cell → ℕ → ℕ → Outcome Cookie
network_read = start

abbrev pub network_write : Bool → Bool → List Cell → ℕ → ℕ → Outcome Cookie
network_write = start

-- The label `tryagain`: no result yet, unless the event cannot be registered.
unfoldable pub tryagain : Bool → Cookie → Cookie × Option Result
tryagain granted c = if granted then (c, none) else (c, some error)

-- The end of the callbacks, after the position was advanced.
unfoldable pub advanced : Bool → Cookie → Outcome (Cookie × Option Result)
advanced granted c =
    if ltb c.bufpos c.minlen
    then done (tryagain granted c)
    else assert (leb c.bufpos ssize_max) (done (c, some (count c.bufpos)))

-- `C->buflen - C->bufpos`.
unfoldable pub oplen : Cookie → ℕ
oplen c = size_t (c.buflen + 2 ^ 64 - c.bufpos)

-- `callback_buf` of a read, once `recv` has answered.
unfoldable pub on_received : Bool → Cookie → Received → Outcome (Cookie × Option Result)
on_received granted c try_later = done (tryagain granted c)
on_received granted c broken = done (c, some error)
on_received granted c (bytes []) = done (c, some eof)
on_received granted c (bytes (b ∷ bs)) = advanced granted (record c {
  buf = memcpy c.buf c.bufpos (map some (b ∷ bs)) (length (b ∷ bs));
  bufpos = size_t (c.bufpos + length (b ∷ bs));
})

-- `callback_buf` of a write, once `send` has answered.
unfoldable pub on_sent : Bool → Cookie → Sent → Outcome (Cookie × Option Result)
on_sent granted c try_later = done (tryagain granted c)
on_sent granted c broken = done (c, some error)
on_sent granted c (taken n) =
    assert (not (n == 0)) (advanced granted (record c { bufpos = size_t (c.bufpos + n) }))

module _ {S : Type 0} (io : Socket S) where
  -- `callback_buf` of a read: the socket, the cookie and the result afterwards.
  unfoldable pub read_ready : Bool → S → Cookie → Outcome (S × Cookie × Option Result)
  read_ready granted s c =
      let answer = io.recv s (oplen c) in
      on_received granted c answer.1 >>= λ r. done (answer.0, r.0, r.1)

  -- `callback_buf` of a write: `send` gets the bytes at `C->buf + C->bufpos`.
  unfoldable pub write_ready : Bool → S → Cookie → Outcome (S × Cookie × Option Result)
  write_ready granted s c =
      let answer = io.send s (take (oplen c) (drop c.bufpos c.buf)) in
      on_sent granted c answer.1 >>= λ r. done (answer.0, r.0, r.1)
