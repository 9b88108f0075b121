-- ===== src/Fsm/Engine/Chunks.antt =====
-- include/framework/fsm/fsm_engine.h, `BulkAccumulator`: what it holds does not depend on how the bytes
-- are cut into reads.
use proto_relay.Base.{
  ℕ, zero, suc, ◌+◌, ◌-◌, ◌≡◌, refl, sym, ap, ◌∙◌, arith, Bool, true, false, ◌&&◌, ◌||◌, not,
  Option, List, [], ◌∷◌, ◌++◌, length, length-append, length-take, take, min, leb, ◌==◌,
  if◌then◌else◌, Bytes,
}
use mathlib.Core.List.{append_assoc, append-nil}
use proto_relay.Fsm.Engine.{Bulk, new_bulk, feed_bulk}

-- The chunks one after another, the surplus dropped.
unfoldable pub feed_all : List Bytes → Bulk → Bulk
unfolding feed_bulk
feed_all [] b = b
feed_all (chunk ∷ chunks) b = feed_all chunks (feed_bulk chunk b).0

unfoldable pub joined : List Bytes → Bytes
joined [] = []
joined (chunk ∷ chunks) = chunk ++ joined chunks

take_of_nothing : (n : ℕ) → take {A = ℕ} n [] ≡ []
take_of_nothing zero = refl
take_of_nothing (suc n) = refl

take_as : (a b : ℕ) (c : Bytes) → a ≡ b → take a c ≡ take b c
take_as a b c e = ap (λ k. take k c) e

take-short : (n : ℕ) (c : Bytes) → take (min (length c) n) c ≡ take n c
take-short n [] = take_of_nothing (min 0 n) ∙ sym (take_of_nothing n)
take-short zero (x ∷ c) = take_as (min (suc (length c)) 0) 0 (x ∷ c) (omega arith)
take-short (suc n) (x ∷ c) =
    take_as (min (suc (length c)) (suc n)) (suc (min (length c) n)) (x ∷ c) (omega arith)
    ∙ ap (λ t. x ∷ t) (take-short n c)

-- The first bytes of what has come and comes.
take-room :
    (n : ℕ) (fed c : Bytes)
    → take n (fed ++ c) ≡ take n fed ++ take (min (length c) (n - length (take n fed))) c
take-room zero [] c = sym (take-short 0 c)
take-room (suc n) [] c =
    sym (take-short (suc n) c)
    ∙ take_as (min (length c) (suc n)) (min (length c) (suc n - 0)) c (omega arith)
take-room zero (x ∷ fed) c = take_as 0 (min (length c) (0 - 0)) c (omega arith)
take-room (suc n) (x ∷ fed) c =
    ap (λ t. x ∷ t)
      (take-room n fed c
        ∙ ap (λ t. take n fed ++ t)
            (take_as (min (length c) (n - length (take n fed)))
              (min (length c) (suc n - suc (length (take n fed)))) c (omega arith)))

-- Where an accumulator stands behind the bytes that it was fed.
record Holds (n : ℕ) (fed : Bytes) (b : Bulk) : Type 0 where
  expected : b.expected ≡ n
  sink : b.sink ≡ take n fed
  complete : b.complete ≡ (leb n (length fed) && not (length fed == 0))

if_Holds :
    (n : ℕ) (fed : Bytes) (x y : Bulk × Option Bytes) (b : Bool)
    → ((b ≡ true) → Holds n fed x.0)
    → ((b ≡ false) → Holds n fed y.0)
    → Holds n fed (if b then x else y).0
if_Holds n fed x y true h k = h refl
if_Holds n fed x y false h k = k refl

same-Holds :
    (n : ℕ) (fed chunk : Bytes) (b : Bulk)
    → Holds n fed b
    → (b.complete || length chunk == 0) ≡ true
    → Holds n (fed ++ chunk) b
same-Holds n fed chunk b h p = record {
  expected = h.expected;
  sink =
      h.sink
      ∙ (sym (append-nil (take n fed))
          ∙ (ap (λ t. take n fed ++ t)
                (sym (
                  take_as (min (length chunk) (n - length (take n fed))) 0 chunk
                    (ground (arith, p, h.complete, length-take n fed))))
              ∙ sym (take-room n fed chunk)));
  complete = ground (arith, p, h.complete, length-append fed chunk);
}

feed_bulk-Holds :
    (n : ℕ) (fed chunk : Bytes) (b : Bulk)
    → Holds n fed b
    → Holds n (fed ++ chunk) (feed_bulk chunk b).0
unfolding feed_bulk
feed_bulk-Holds n fed chunk b h =
    let sink = b.sink ++ take (min (length chunk) (b.expected - length b.sink)) chunk in
    let held : sink ≡ take n (fed ++ chunk) =
      rw (h.sink, h.expected) (sym (take-room n fed chunk)) in
    let size : length sink ≡ min n (length fed + length chunk) =
      ap length held
      ∙ (length-take n (fed ++ chunk) ∙ ap (λ k. min n k) (length-append fed chunk)) in
    if_Holds n (fed ++ chunk) _ _ (b.complete || length chunk == 0)
      (λ p. same-Holds n fed chunk b h p)
      (λ p.
        if_Holds n (fed ++ chunk) _ _ (length sink == b.expected)
          (λ q. record {
            expected = h.expected;
            sink = held;
            complete = ground (arith, p, q, size, h.expected, length-append fed chunk);
          })
          (λ q. record {
            expected = h.expected;
            sink = held;
            complete = ground (arith, p, q, size, h.expected, h.complete, length-append fed chunk);
          }))

feed_all-Holds :
    (n : ℕ) (fed : Bytes) (chunks : List Bytes) (b : Bulk)
    → Holds n fed b
    → Holds n (fed ++ joined chunks) (feed_all chunks b)
unfolding feed_all joined
feed_all-Holds n fed [] b h = rw (append-nil fed) h
feed_all-Holds n fed (chunk ∷ chunks) b h =
    rw (sym (append_assoc fed chunk (joined chunks)))
      (feed_all-Holds n (fed ++ chunk) chunks _ (feed_bulk-Holds n fed chunk b h))

-- However the bytes are cut into reads, a new accumulator holds the first of them, up to the length
-- that was declared, and is complete when that many have come, and one at least.
pub feed_all-joined :
    (n : ℕ) (chunks : List Bytes)
    → ((feed_all chunks (new_bulk n)).sink ≡ take n (joined chunks))
      × ((feed_all chunks (new_bulk n)).complete
          ≡ (leb n (length (joined chunks)) && not (length (joined chunks) == 0)))
unfolding new_bulk
feed_all-joined n chunks =
    let h = feed_all-Holds n [] chunks (new_bulk n) (new_bulk-Holds n) in (h.sink, h.complete)
  where
    take_none : (n : ℕ) → [] ≡ take {A = ℕ} n []
    take_none zero = refl
    take_none (suc n) = refl

    new_bulk-Holds : (n : ℕ) → Holds n [] (record { expected = n; sink = []; complete = false })
    new_bulk-Holds n = record { expected = refl; sink = take_none n; complete = ground arith }
