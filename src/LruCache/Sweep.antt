-- ===== src/LruCache/Sweep.antt =====
-- The loop of `invalidate_if` over the list and the map.
use proto_relay.Base.{
  ◌+◌, ◌≤◌, Bool, true, false, none, List, [], ◌∷◌, ◌≡◌, inl, inr, arith, length, if◌then◌else◌,
  Bool-cases,
}
use proto_relay.Base.Eq.{KeyEq}
use proto_relay.Base.Assoc.{
  lookup, has_key, erase, NodupKeys, has_key-erase, lookup-erase, length-erase, erase-NodupKeys,
}
use proto_relay.LruCache.{InternalEntry, sweep}

module _ {K V : Type 0} ⦃e : KeyEq K⦄ where
  pub has_key-sweep :
      (pred : K → Bool) (j : K) (l : List (K × InternalEntry V)) (m : List (K × K))
      → has_key j (sweep pred l m).0 ≡ (if pred j then false else has_key j l)
  unfolding sweep has_key
  has_key-sweep pred j [] m = ground arith
  has_key-sweep pred j ((k, w) ∷ l) m =
      ground (arith, has_key-sweep pred j l (if pred k then erase k m else m), e.beq_iff k j)

  pub sweep-NodupKeys :
      (pred : K → Bool) (l : List (K × InternalEntry V)) (m : List (K × K))
      → NodupKeys l
      → NodupKeys m
      → NodupKeys (sweep pred l m).0 × NodupKeys (sweep pred l m).1
  unfolding sweep
  sweep-NodupKeys pred [] m h n = (tt, n)
  sweep-NodupKeys pred ((k, w) ∷ l) m h n = elim (Bool-cases (pred k)) [
    | inl out ↦ rw out (sweep-NodupKeys pred l (erase k m) h.1 (erase-NodupKeys k m n))
    | inr kept ↦ rw kept (
        let (a, b) = sweep-NodupKeys pred l m h.1 n in
        ((ground (arith, has_key-sweep pred k l m, h.0), a), b))
  ]

  pub lookup-sweep :
      (pred : K → Bool) (j : K) (l : List (K × InternalEntry V)) (m : List (K × K))
      → NodupKeys m
      → lookup j (sweep pred l m).1
        ≡ (if pred j then (if has_key j l then none else lookup j m) else lookup j m)
  unfolding sweep has_key
  lookup-sweep pred j [] m n = ground arith
  lookup-sweep pred j ((k, w) ∷ l) m n = elim (Bool-cases (pred k)) [
    | inl out ↦ rw out (
        ground (
          arith,
          lookup-sweep pred j l (erase k m) (erase-NodupKeys k m n),
          lookup-erase k j m n,
          e.beq_iff k j,
        ))
    | inr kept ↦ rw kept (ground (arith, lookup-sweep pred j l m n, e.beq_iff k j))
  ]

  -- Each node that goes takes one map entry with it.
  pub length-sweep :
      (pred : K → Bool) (l : List (K × InternalEntry V)) (m : List (K × K))
      → NodupKeys l
      → NodupKeys m
      → ((j : K) → has_key j l ≡ true → has_key j m ≡ true)
      → length (sweep pred l m).1 + length l ≡ length m + length (sweep pred l m).0
  unfolding sweep has_key
  length-sweep pred [] m h n inside = omega arith
  length-sweep pred ((k, w) ∷ l) m h n inside = elim (Bool-cases (pred k)) [
    | inl out ↦ rw out (
        let rest =
          length-sweep pred l (erase k m) h.1 (erase-NodupKeys k m n) (λ j there.
            ground (arith, has_key-erase k j m n, inside j, there, h.0, e.beq_iff k j)) in
        ground (arith, rest, length-erase k m, inside k, e.beq_iff k k))
    | inr kept ↦ rw kept (
        let rest = length-sweep pred l m h.1 n (λ j there. ground (arith, inside j, there)) in
        ground (arith, rest))
  ]

  pub sweep_le :
      (pred : K → Bool) (l : List (K × InternalEntry V)) (m : List (K × K))
      → length (sweep pred l m).0 ≤ length l
  unfolding sweep
  sweep_le pred [] m = omega arith
  sweep_le pred ((k, w) ∷ l) m = ground (arith, sweep_le pred l (if pred k then erase k m else m))
