-- ===== src/Base/Assoc.antt =====
-- Maps with a decidable key as association lists. `insert` is `m[k] = v`, `erase` is `m.erase(k)`.
use Prim.Native.Nat.{suc}
use mathlib.Core.Path.{◌≡◌, refl}
use mathlib.Core.Bool.{Bool, true, false}
use mathlib.Core.List.{List, [], ◌∷◌}
use mathlib.Core.Option.{Option, none, some}
use native.Mathlib.Omega.{arith}
use proto_relay.Base.Tests.{if◌then◌else◌}
use proto_relay.Base.Lists.{length}
use proto_relay.Base.Eq.{KeyEq}

module _ {ℓ} {K : Type ℓ} ⦃e : KeyEq K⦄ where
  pub beq_refl : (k : K) → e.beq k k ≡ true
  beq_refl k = (e.beq_iff k k).1 refl

module _ {ℓ κ} {K : Type ℓ} {V : Type κ} ⦃e : KeyEq K⦄ where
  unfoldable pub lookup : K → List (K × V) → Option V
  lookup k [] = none
  lookup k ((j, v) ∷ m) = if e.beq j k then some v else lookup k m

  unfoldable pub has_key : K → List (K × V) → Bool
  has_key k [] = false
  has_key k ((j, v) ∷ m) = if e.beq j k then true else has_key k m

  unfoldable pub insert : K → V → List (K × V) → List (K × V)
  insert k v [] = (k, v) ∷ []
  insert k v ((j, w) ∷ m) = if e.beq j k then (j, v) ∷ m else (j, w) ∷ insert k v m

  unfoldable pub erase : K → List (K × V) → List (K × V)
  erase k [] = []
  erase k ((j, v) ∷ m) = if e.beq j k then m else (j, v) ∷ erase k m

  -- No key occurs twice.
  abbrev pub NodupKeys : List (K × V) → Type 0
  NodupKeys [] = Unit
  NodupKeys ((k, v) ∷ m) = (has_key k m ≡ false) × NodupKeys m

module _ {ℓ κ} {K : Type ℓ} {V : Type κ} ⦃e : KeyEq K⦄ where
  pub has_key-lookup :
      (k : K) (m : List (K × V))
      → has_key k m ≡ (elim (lookup k m) [ none ↦ false | some _ ↦ true ])
  unfolding has_key lookup
  has_key-lookup k [] = refl
  has_key-lookup k ((j, v) ∷ m) = ground (arith, has_key-lookup k m)

  pub lookup-insert :
      (k j : K) (v : V) (m : List (K × V))
      → lookup j (insert k v m) ≡ (if e.beq k j then some v else lookup j m)
  unfolding lookup insert
  lookup-insert k j v [] = refl
  lookup-insert k j v ((i, w) ∷ m) =
      ground (arith, e.beq_iff k j, e.beq_iff i k, e.beq_iff i j, lookup-insert k j v m)

  pub has_key-insert :
      (k j : K) (v : V) (m : List (K × V))
      → has_key j (insert k v m) ≡ (if e.beq k j then true else has_key j m)
  unfolding has_key insert
  has_key-insert k j v [] = refl
  has_key-insert k j v ((i, w) ∷ m) =
      ground (arith, e.beq_iff k j, e.beq_iff i k, e.beq_iff i j, has_key-insert k j v m)

  pub length-insert :
      (k : K) (v : V) (m : List (K × V))
      → length (insert k v m) ≡ (if has_key k m then length m else suc (length m))
  unfolding has_key insert
  length-insert k v [] = refl
  length-insert k v ((i, w) ∷ m) = ground (arith, length-insert k v m)

  pub insert-NodupKeys : (k : K) (v : V) (m : List (K × V)) → NodupKeys m → NodupKeys (insert k v m)
  unfolding insert
  insert-NodupKeys k v [] h = (unfold has_key in refl, tt)
  insert-NodupKeys k v ((i, w) ∷ m) h =
      ground
        (arith, insert-NodupKeys k v m h.1, has_key-insert k i v m, e.beq_iff i k, e.beq_iff k i)

  -- What is not there is not there after a removal either.
  pub has_key-erase_absent :
      (k j : K) (m : List (K × V)) → has_key j m ≡ false → has_key j (erase k m) ≡ false
  unfolding has_key erase
  has_key-erase_absent k j [] h = refl
  has_key-erase_absent k j ((i, w) ∷ m) h = ground (arith, has_key-erase_absent k j m)

  pub has_key-erase :
      (k j : K) (m : List (K × V))
      → NodupKeys m
      → has_key j (erase k m) ≡ (if e.beq k j then false else has_key j m)
  unfolding has_key erase
  has_key-erase k j [] h = ground arith
  has_key-erase k j ((i, w) ∷ m) h =
      ground (arith, e.beq_iff k j, e.beq_iff i k, e.beq_iff i j, has_key-erase k j m h.1)

  pub lookup_absent : (k : K) (m : List (K × V)) → has_key k m ≡ false → lookup k m ≡ none
  unfolding has_key lookup
  lookup_absent k [] h = refl
  lookup_absent k ((i, w) ∷ m) h = ground (arith, lookup_absent k m)

  pub lookup-erase :
      (k j : K) (m : List (K × V))
      → NodupKeys m
      → lookup j (erase k m) ≡ (if e.beq k j then none else lookup j m)
  unfolding lookup erase
  lookup-erase k j [] h = ground arith
  lookup-erase k j ((i, w) ∷ m) h = ground (
    arith,
    e.beq_iff k j,
    e.beq_iff i k,
    e.beq_iff i j,
    lookup-erase k j m h.1,
    lookup_absent j m,
  )

  pub erase-NodupKeys : (k : K) (m : List (K × V)) → NodupKeys m → NodupKeys (erase k m)
  unfolding erase
  erase-NodupKeys k [] h = tt
  erase-NodupKeys k ((i, w) ∷ m) h =
      ground (arith, erase-NodupKeys k m h.1, has_key-erase_absent k i m h.0)

  pub length-erase :
      (k : K) (m : List (K × V))
      → (if has_key k m then suc (length (erase k m)) else length (erase k m)) ≡ length m
  unfolding has_key erase
  length-erase k [] = refl
  length-erase k ((i, w) ∷ m) = ground (arith, length-erase k m)

  pub erase_absent : (k : K) (m : List (K × V)) → has_key k m ≡ false → erase k m ≡ m
  unfolding has_key erase
  erase_absent k [] h = refl
  erase_absent k ((i, w) ∷ m) h = ground (arith, erase_absent k m)
