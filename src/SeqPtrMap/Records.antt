-- ===== src/SeqPtrMap/Records.antt =====
-- datastruct/elasticqueue.c, as datastruct/seqptrmap.c uses it: a queue of pointers.
use mathlib.Core.List.{append-nil}
use libcperciva.Prelude.{
  ℕ, suc, ◌+◌, ◌-◌, ◌*◌, ◌^◌, ◌≤◌, ◌<◌, ◌≡◌, ap, ap₂, sym, ◌∙◌, Bool, true, List, [], ◌∷◌, ◌++◌,
  some, done, arith, Cell, memcpy, length-memcpy, Keeps, Returns, Keeps-map, Returns-map, get_elem?,
  set, take, drop, length, length-append, length-drop, length-set, drop-append_add,
}
use libcperciva.ElasticArray
use libcperciva.ElasticQueue
use libcperciva.ElasticQueue.{ElasticQueue}
use libcperciva.ElasticQueue.Fifo.{
  IsLaidOut, IsValid, queued, Queues, add-Keeps, add-Returns, get_loads, get_place,
}
use libcperciva.ElasticQueue.Delete.{delete_front}
use libcperciva.SeqPtrMap.{load, store}
use libcperciva.SeqPtrMap.Windows.{
  drop-memcpy, take-memcpy, join, AreEight, join-append, AreEight-append, AreEight-set,
  join-get_elem?, join-set,
}

-- The queue is valid and holds these pointers.
pub record Records (recs : List (List Cell)) (eq : ElasticQueue) : Type 0 where
  pub valid : IsValid eq
  pub width : eq.reclen ≡ 8
  pub holds : queued eq ≡ join recs
  pub count : eq.len ≡ length recs
  pub each : AreEight recs

module _ (recs : List (List Cell)) (eq : ElasticQueue) (v : Records recs eq) where
  added :
      (ptr : List Cell)
      → length ptr ≡ 8
      → (eq' : ElasticQueue) → Queues eq.reclen (eq.len + 1) (queued eq ++ ptr) eq'
      → Records (recs ++ ptr ∷ []) eq'
  added ptr h eq' q = record {
    valid = q.valid;
    width = q.width ∙ v.width;
    holds =
        q.holds
        ∙ ap (λ k. k ++ ptr) v.holds
        ∙ ap (◌++◌ (join recs)) (sym (append-nil ptr))
        ∙ sym (join-append recs (ptr ∷ []));
    count = omega (arith, q.count, v.count, length-append recs (ptr ∷ []));
    each = AreEight-append recs ptr v.each h;
  }

  pub add-Keeps-Records :
      (granted : Bool) (ptr : List Cell)
      → length ptr ≡ 8
      → Keeps (Records (recs ++ ptr ∷ [])) (ElasticQueue.add granted eq ptr)
  add-Keeps-Records granted ptr h =
      Keeps-map _ (Records (recs ++ ptr ∷ [])) (added ptr h) _
        (add-Keeps eq v.valid ptr (h ∙ sym v.width) granted)

  pub add-Returns-Records :
      (ptr : List Cell)
      → length ptr ≡ 8
      → eq.ea.size + 8 < 2 ^ 64
      → Returns (Records (recs ++ ptr ∷ [])) (ElasticQueue.add true eq ptr)
  add-Returns-Records ptr h room =
      Returns-map _ (Records (recs ++ ptr ∷ [])) (added ptr h) _
        (add-Returns eq v.valid ptr (h ∙ sym v.width) (rw v.width room))

  pub load-Records :
      (i : ℕ) (r : List Cell) → get_elem? recs i ≡ some r → i < length recs → load eq i ≡ done r
  unfolding load
  load-Records i r e less =
      let (place, found, same) = get_loads eq i v.valid (omega (arith, v.count)) in
      rw (found, load)
        (ap done (
          ap (ElasticArray.load eq.ea place) (sym v.width)
          ∙ same
          ∙ ap₂ (λ w k. take w (drop (i * w) k)) v.width v.holds
          ∙ join-get_elem? recs i r v.each e))

module _ (r : List Cell) (recs : List (List Cell)) (eq : ElasticQueue)
    (v : Records (r ∷ recs) eq) where
  pub delete-Returns-Records :
      (granted : Bool) → Returns (Records recs) (ElasticQueue.delete granted eq)
  delete-Returns-Records granted =
      Returns-map _ (Records recs)
        (λ eq' q. record {
          valid = q.valid;
          width = q.width ∙ v.width;
          holds =
              q.holds
              ∙ ap₂ (λ w k. drop w k) v.width v.holds
              ∙ drop-append_add 8 0 r (join recs) v.each.0;
          count = omega (arith, q.count, v.count);
          each = v.each.1;
        })
        _ (delete_front eq v.valid (omega (arith, v.count)) granted)

module _ (recs : List (List Cell)) (eq : ElasticQueue) (v : Records recs eq) (i : ℕ)
    (less : i < length recs) (r : List Cell) (eight : length r ≡ 8) where
  o : IsLaidOut eq
  o = v.valid.laid_out

  abbrev start : ℕ
  start = eq.offset * eq.reclen

  -- The records behind the one that is stored.
  abbrev behind : ℕ
  behind = (length recs - suc i) * 8

  place-eq : (i + eq.offset) * eq.reclen ≡ start + i * 8
  place-eq = rw v.width (omega arith)

  window : eq.len * eq.reclen ≡ i * 8 + (8 + behind)
  window = rw (v.width, v.count) (omega arith)

  room : start + eq.len * eq.reclen ≤ length eq.ea.buf
  room = omega (arith, o.sized, o.array.within, o.array.whole)

  stored :
      queued (record eq {
        ea = record eq.ea { buf = memcpy eq.ea.buf ((i + eq.offset) * eq.reclen) r 8 };
      })
      ≡ join (set recs i r)
  stored =
      ap₂ (λ n p. take n (drop start (memcpy eq.ea.buf p r 8))) window place-eq
      ∙ ap (take (i * 8 + (8 + behind)))
          (drop-memcpy eq.ea.buf r 8 start (i * 8) (omega (arith, room)))
      ∙ take-memcpy (drop start eq.ea.buf) r 8 (i * 8) behind
          (omega (arith, room, window, length-drop start eq.ea.buf)) (omega (arith, eight))
      ∙ ap (λ k. memcpy k (i * 8) r 8)
          (ap (λ n. take n (drop start eq.ea.buf)) (sym window) ∙ v.holds)
      ∙ join-set recs i r v.each eight less

  pub store-Returns-Records : Returns (Records (set recs i r)) (store eq i r)
  unfolding store
  store-Returns-Records =
      rw (get_place eq i v.valid (omega (arith, v.count)), store)
        (record {
          valid = record {
            laid_out = record {
              array = record {
                within = o.array.within;
                whole =
                    length-memcpy eq.ea.buf ((i + eq.offset) * eq.reclen) r 8 (omega (arith, eight))
                      (omega (arith, room, window, place-eq))
                    ∙ o.array.whole;
                addressable = o.array.addressable;
              };
              pos = o.pos;
              sized = o.sized;
            };
            behind = v.valid.behind;
          };
          width = v.width;
          holds = stored;
          count = v.count ∙ sym (length-set recs i r);
          each = AreEight-set recs i r v.each eight;
        })
