-- ===== src/LineFolder/Chunks.antt =====
-- include/mail_system/back/algorithm/line_folder.h: how the input is cut into chunks does not matter.
use proto_relay.Base.{
  ℕ, ◌≡◌, refl, ap, ◌∙◌, sym, arith, false, ◌&&◌, Option, none, some, List, [], ◌∷◌, ◌++◌, ◌==◌,
  Bytes, Bool-cases, inl, inr,
}
use mathlib.Core.List.{append_assoc}
use proto_relay.LineFolder.{push_byte, split_lines, with_prefix, fold_lines, keep_carry, feed, both}

-- A carry that was split before, with more bytes behind it.
unfoldable pub split_more : List Bytes × Bytes → Bytes → List Bytes × Bytes
split_more (lines, rest) b = (lines ++ (split_lines (rest ++ b)).0, (split_lines (rest ++ b)).1)

split_more-push_byte :
    (c : ℕ) (p : List Bytes × Bytes) (b : Bytes)
    → (p.0 ≡ [] → split_lines (c ∷ (p.1 ++ b)) ≡ push_byte c (split_lines (p.1 ++ b)))
    → split_more (push_byte c p) b ≡ push_byte c (split_more p b)
unfolding split_more push_byte
split_more-push_byte c ([], rest) b h = h refl
split_more-push_byte c (line ∷ lines, rest) b h = refl

-- Where no line ends, all is left.
push_byte-none :
    (c : ℕ) (p : List Bytes × Bytes)
    → (push_byte c p).0 ≡ []
    → (p.0 ≡ []) × ((push_byte c p).1 ≡ c ∷ p.1)
unfolding push_byte
push_byte-none c ([], rest) h = (refl, refl)
push_byte-none c (line ∷ lines, rest) h = ground (arith, h)

split_lines-none : (s : Bytes) → (split_lines s).0 ≡ [] → (split_lines s).1 ≡ s
unfolding split_lines
split_lines-none [] h = refl
split_lines-none (c ∷ []) h = refl
split_lines-none (c ∷ d ∷ s) h = elim (Bool-cases (c == 13 && d == 10)) [
  | inl e ↦ ground (arith, h, e)
  | inr e ↦
      let h' : (push_byte c (split_lines (d ∷ s))).0 ≡ [] = ground (arith, h, e) in
      ground (arith, e, push_byte-none c (split_lines (d ∷ s)) h', split_lines-none (d ∷ s))
]

split_lines-apart :
    (c d : ℕ) (s : Bytes)
    → c == 13 && d == 10 ≡ false
    → split_lines (c ∷ d ∷ s) ≡ push_byte c (split_lines (d ∷ s))
unfolding split_lines
split_lines-apart c d s h = rw h refl

split_apart_append :
    (c d : ℕ) (a b : Bytes)
    → c == 13 && d == 10 ≡ false
    → split_lines (d ∷ (a ++ b)) ≡ split_more (split_lines (d ∷ a)) b
    → split_lines (c ∷ d ∷ (a ++ b)) ≡ split_more (split_lines (c ∷ d ∷ a)) b
split_apart_append c d a b e h =
    split_lines-apart c d (a ++ b) e
    ∙ ap (push_byte c) h
    ∙ sym (
        split_more-push_byte c (split_lines (d ∷ a)) b
          (λ none_ends. rw (split_lines-none (d ∷ a) none_ends) (split_lines-apart c d (a ++ b) e)))
    ∙ ap (λ p. split_more p b) (sym (split_lines-apart c d a e))

split_lines-append : (a b : Bytes) → split_lines (a ++ b) ≡ split_more (split_lines a) b
unfolding split_lines split_more
split_lines-append [] b = refl
split_lines-append (c ∷ []) b = refl
split_lines-append (c ∷ d ∷ a) b = elim (Bool-cases (c == 13 && d == 10)) [
  | inl e ↦ ground (arith, e, split_lines-append a b)
  | inr e ↦ split_apart_append c d a b e (split_lines-append (d ∷ a) b)
]

both_assoc : (o p q : Option Bytes) → both (both o p) q ≡ both o (both p q)
unfolding both with_prefix
both_assoc none p q = refl
both_assoc (some a) none q = refl
both_assoc (some a) (some b) none = refl
both_assoc (some a) (some b) (some c) = ap some (append_assoc a b c)

both_nothing : (o : Option Bytes) → both (some []) o ≡ o
unfolding both with_prefix
both_nothing none = refl
both_nothing (some a) = refl

fold_lines-append :
    (xs ys : List Bytes) → fold_lines (xs ++ ys) ≡ both (fold_lines xs) (fold_lines ys)
unfolding fold_lines
fold_lines-append [] ys = sym (both_nothing (fold_lines ys))
fold_lines-append (x ∷ xs) ys =
    ap (both _) (fold_lines-append xs ys) ∙ sym (both_assoc _ (fold_lines xs) (fold_lines ys))

-- The output of a second call of `feed`, behind that of the first.
unfoldable pub prepend : Bytes → Option (Bytes × Bytes) → Option (Bytes × Bytes)
prepend out none = none
prepend out (some (more, carry)) = some (out ++ more, carry)

unfoldable pub feed_after : Option (Bytes × Bytes) → Bytes → Option (Bytes × Bytes)
unfolding prepend
feed_after none chunk = none
feed_after (some (out, carry)) chunk = prepend out (feed carry chunk)

feed_keep_carry :
    (o : Option Bytes) (p : List Bytes × Bytes) (b : Bytes)
    → feed_after (keep_carry p.1 o) b
      ≡ keep_carry (split_lines (p.1 ++ b)).1 (both o (fold_lines (split_lines (p.1 ++ b)).0))
unfolding feed_after keep_carry feed both prepend with_prefix
feed_keep_carry none p b = refl
feed_keep_carry (some out) p b = go (fold_lines (split_lines (p.1 ++ b)).0)
  where
    go :
        (q : Option Bytes)
        → prepend out (keep_carry (split_lines (p.1 ++ b)).1 q)
          ≡ keep_carry (split_lines (p.1 ++ b)).1 (with_prefix out q)
    go none = refl
    go (some more) = refl

-- Two chunks, one after the other, give the output and the carry that their concatenation gives in
-- one call, wherever the text is cut: within a line, between CR and LF, or in front of a dot. Where
-- one way does not return, the other does not.
pub feed-append : (carry a b : Bytes) → feed_after (feed carry a) b ≡ feed carry (a ++ b)
unfolding feed split_more
feed-append carry a b =
    let p = split_lines (carry ++ a) in
    feed_keep_carry (fold_lines p.0) p b
    ∙ ap (keep_carry (split_lines (p.1 ++ b)).1)
        (sym (fold_lines-append p.0 (split_lines (p.1 ++ b)).0))
    ∙ ap (λ (q : List Bytes × Bytes). keep_carry q.1 (fold_lines q.0))
        (sym (split_lines-append (carry ++ a) b))
    ∙ ap (λ s. keep_carry (split_lines s).1 (fold_lines (split_lines s).0)) (append_assoc carry a b)
