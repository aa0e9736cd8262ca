-- ===== src/ImmediateEvents.antt =====
-- events/events_immediate.c: the events that run before the process waits for anything, by
-- priority. A linked list of nodes is the list of them; the file's variables are the state. The
-- answers of the allocators are arguments, and a cookie is the node that was allocated.
pub mod Order
use libcperciva.Prelude.{
  ℕ, zero, suc, ◌+◌, ◌<◌, List, [], ◌∷◌, ◌++◌, Bool, true, false, ltb, ◌==◌, if◌then◌else◌, Option,
  none, some, Outcome, done, fail, abort, ◌>>=◌, assert, length, take, drop, replicate, get_or, set,
}

-- `struct eventq` at an address; `event` is the event record with its function and its cookie.
pub record Node (E : Type 0) : Type 0 where
  pub address : ℕ
  pub event : E
  pub prio : ℕ

pub record Events (E : Type 0) : Type 0 where
  pub heads : List (List (Node E))
  pub minq : ℕ

module _ {E : Type 0} where
  -- The initial values of the variables.
  abbrev pub initial : Events E
  initial = record { heads = replicate 32 []; minq = 32 }

  abbrev pub queue : Events E → ℕ → List (Node E)
  queue s prio = get_or s.heads prio []

  -- `event` is the record that `events_mkrec` returns, if it has the memory; `address` is where
  -- the node is allocated, if there is memory for it. The result has the cookie.
  unfoldable pub register : Events E → Option E → Option ℕ → ℕ → Outcome (Events E × Node E)
  register s event address prio = assert (ltb prio 32) (elim event [
    | none ↦ fail
    | some r ↦ elim address [
      | none ↦ fail
      | some a ↦
          let q : Node E = record { address = a; event = r; prio = prio } in
          done (
            record {
              heads = set s.heads prio (queue s prio ++ (q ∷ []));
              minq = if ltb prio s.minq then prio else s.minq;
            },
            q,
          )
    ]
  ])

  -- `TAILQ_REMOVE`: the node at the address leaves the list.
  unfoldable pub remove : ℕ → List (Node E) → List (Node E)
  remove address [] = []
  remove address (q ∷ qs) =
      let rest = remove address qs in if q.address == address then qs else q ∷ rest

  unfoldable pub cancel : Events E → Node E → Events E
  cancel s q = record s { heads = set s.heads q.prio (remove q.address (queue s q.prio)) }

  abbrev pub is_empty : List (Node E) → Bool
  is_empty [] = true
  is_empty (q ∷ qs) = false

  -- `while ((minq < 32) && (TAILQ_EMPTY(&heads[minq]))) minq++`.
  unfoldable pub advance : ℕ → List (List (Node E)) → ℕ → Outcome ℕ
  advance zero heads minq = abort
  advance (suc fuel) heads minq =
      let more = advance fuel heads (minq + 1) in
      if ltb minq 32
      then (if is_empty (get_or heads minq []) then more else done minq)
      else done minq

  -- The first node of a list, taken off.
  unfoldable pub take_first : Events E → List (Node E) → Outcome (Events E × Option E)
  take_first s [] = abort
  take_first s (q ∷ qs) = done (record s { heads = set s.heads s.minq qs }, some q.event)

  unfoldable pub get : Events E → Outcome (Events E × Option E)
  get s = advance 33 s.heads s.minq >>= λ minq.
      let t : Events E = record s { minq = minq } in
      if minq == 32 then done (t, none) else take_first t (queue t minq)
