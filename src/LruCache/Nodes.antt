-- ===== src/LruCache/Nodes.antt =====
-- The node operations of the cache: which keys stay, how many nodes stay, and that none repeats.
use proto_relay.Base.{true, none, some, List, [], ◌∷◌, ◌≡◌, refl, arith, length}
use proto_relay.Base.Eq.{KeyEq}
use proto_relay.Base.Assoc.{
  has_key, erase, NodupKeys, has_key-lookup, has_key-erase, length-erase, erase-NodupKeys, beq_refl,
}
use proto_relay.LruCache.{InternalEntry, splice, assign, back_key, pop_back}

module _ {K V : Type 0} ⦃e : KeyEq K⦄ where
  pub has_key-splice :
      (it j : K) (l : List (K × InternalEntry V))
      → NodupKeys l
      → has_key j (splice it l) ≡ has_key j l
  unfolding splice has_key
  has_key-splice it j l h =
      ground (arith, has_key-erase it j l h, has_key-lookup it l, e.beq_iff it j)

  pub splice-NodupKeys :
      (it : K) (l : List (K × InternalEntry V)) → NodupKeys l → NodupKeys (splice it l)
  unfolding splice
  splice-NodupKeys it l h =
      ground (arith, has_key-erase it it l h, beq_refl it, erase-NodupKeys it l h)

  pub length-splice : (it : K) (l : List (K × InternalEntry V)) → length (splice it l) ≡ length l
  unfolding splice
  length-splice it l = ground (arith, length-erase it l, has_key-lookup it l)

  pub has_key-assign :
      (it j : K) (w : InternalEntry V) (l : List (K × InternalEntry V))
      → has_key j (assign it w l) ≡ has_key j l
  unfolding assign has_key
  has_key-assign it j w [] = refl
  has_key-assign it j w ((i, x) ∷ l) = ground (arith, has_key-assign it j w l)

  pub assign-NodupKeys :
      (it : K) (w : InternalEntry V) (l : List (K × InternalEntry V))
      → NodupKeys l
      → NodupKeys (assign it w l)
  unfolding assign
  assign-NodupKeys it w [] h = tt
  assign-NodupKeys it w ((i, x) ∷ l) h =
      ground (arith, assign-NodupKeys it w l h.1, has_key-assign it i w l)

  pub length-assign :
      (it : K) (w : InternalEntry V) (l : List (K × InternalEntry V))
      → length (assign it w l) ≡ length l
  unfolding assign
  length-assign it w [] = refl
  length-assign it w ((i, x) ∷ l) = ground (arith, length-assign it w l)

  pub has_key-back :
      (l : List (K × InternalEntry V)) (k : K) → back_key l ≡ some k → has_key k l ≡ true
  unfolding back_key has_key
  has_key-back [] k h = cc
  has_key-back ((i, x) ∷ []) k h = ground (arith, e.beq_iff i k)
  has_key-back ((i, x) ∷ y ∷ l) k h = ground (arith, has_key-back (y ∷ l) k h)

  -- Removing the last node is removing its key.
  pub pop_back-erase :
      (l : List (K × InternalEntry V)) (k : K)
      → NodupKeys l
      → back_key l ≡ some k
      → pop_back l ≡ erase k l
  unfolding back_key pop_back erase
  pop_back-erase [] k n h = cc
  pop_back-erase ((i, x) ∷ []) k n h = ground (arith, e.beq_iff i k)
  pop_back-erase ((i, x) ∷ y ∷ l) k n h =
      ground (arith, pop_back-erase (y ∷ l) k n.1 h, has_key-back (y ∷ l) k h, e.beq_iff i k)

  pub back_key-none : (l : List (K × InternalEntry V)) → back_key l ≡ none → length l ≡ 0
  unfolding back_key
  back_key-none [] h = refl
  back_key-none ((i, x) ∷ []) h = cc
  back_key-none ((i, x) ∷ y ∷ l) h = absurd (omega (arith, back_key-none (y ∷ l) h))
