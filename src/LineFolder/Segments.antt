-- ===== src/LineFolder/Segments.antt =====
-- include/mail_system/back/algorithm/line_folder.h: what folding makes of the other lines.
use proto_relay.Base.{
  ℕ, zero, suc, ◌-◌, ◌+◌, ◌<◌, ◌≤◌, ◌≡◌, refl, sym, ap, ◌∙◌, arith, Bool, true, false, some, List,
  [], ◌∷◌, ◌++◌, length, take, drop, length-take, length-drop, take-append-drop, ltb, Bytes, All,
  Bool-cases, ltb→lt, inl, inr,
}
use mathlib.Core.List.{append_assoc, append-nil}
use proto_relay.LineFolder.{
  utf8_boundary, budget, next_cut, segment, fold_mark, with_prefix, fold_on, append_folded,
}

-- A cut goes back by three bytes at most, as it does in UTF-8.
abbrev pub HasShortRuns : Bytes → Type 0
HasShortRuns line = (c : ℕ) → c < length line → c ≤ utf8_boundary line c + 3

abbrev pub marked : List Bytes → Bytes
marked [] = []
marked (s ∷ ss) = fold_mark ++ (s ++ marked ss)

abbrev pub joined : List Bytes → Bytes
joined [] = []
joined (s ∷ ss) = s ++ joined ss

-- The output is the text in segments, each behind the first led by CR, LF and a space, and every
-- line of the output is within the bound, its space included.
pub record Folded (first : Bool) (text out : Bytes) : Type 0 where
  pub head : Bytes
  pub tail : List Bytes
  pub output : out ≡ head ++ marked tail
  pub whole : text ≡ head ++ joined tail
  pub head_short : length head ≤ budget first
  pub tail_short : All (λ s. length s + 1 ≤ 2048) tail

utf8_boundary-le : (line : Bytes) (c : ℕ) → utf8_boundary line c ≤ c
unfolding utf8_boundary
utf8_boundary-le line zero = omega arith
utf8_boundary-le line (suc c) = ground (arith, utf8_boundary-le line c)

drop_nil : (n : ℕ) → drop {A = ℕ} n [] ≡ []
drop_nil zero = refl
drop_nil (suc n) = refl

drop-drop : (a b : ℕ) (xs : Bytes) → drop b (drop a xs) ≡ drop (a + b) xs
drop-drop zero b xs = ap (λ n. drop n xs) (omega arith)
drop-drop (suc a) b [] = drop_nil b ∙ sym (drop_nil (suc a + b))
drop-drop (suc a) b (x ∷ xs) =
    let e : suc (a + b) ≡ suc a + b = omega arith in drop-drop a b xs ∙ ap (λ n. drop n (x ∷ xs)) e

next_cut-bounds :
    (line : Bytes) (start : ℕ) (first : Bool)
    → HasShortRuns line
    → start + budget first < length line
    → (start < next_cut line start first) × (next_cut line start first ≤ start + budget first)
unfolding next_cut
next_cut-bounds line start first h b =
    ground (arith, h (start + budget first) b, utf8_boundary-le line (start + budget first))

-- One more segment in front.
add_segment :
    (first : Bool) (k : ℕ) (text out : Bytes)
    → k ≤ budget first
    → Folded false (drop k text) out
    → Folded first text ((take k text ++ fold_mark) ++ out)
add_segment first k text out b f = record {
  head = take k text;
  tail = f.head ∷ f.tail;
  output =
      ap (λ o. (take k text ++ fold_mark) ++ o) f.output
      ∙ append_assoc (take k text) fold_mark (f.head ++ marked f.tail);
  whole = sym (take-append-drop k text) ∙ ap (λ o. take k text ++ o) f.whole;
  head_short = omega (arith, length-take k text);
  tail_short = (omega (arith, f.head_short), f.tail_short);
}

whole_segment : (first : Bool) (text : Bytes) → length text ≤ budget first → Folded first text text
whole_segment first text b = record {
  head = text;
  tail = [];
  output = sym (append-nil text);
  whole = sym (append-nil text);
  head_short = b;
  tail_short = tt;
}

module _ (line : Bytes) (h : HasShortRuns line) where
  next_Folded :
      (first : Bool) (start cut n : ℕ)
      → budget first < length line - start
      → cut ≡ next_cut line start first
      → (start < cut) × (cut ≤ start + budget first)
      → (out : Bytes) × (fold_on n line cut false ≡ some out) × Folded false (drop cut line) out
      → (out : Bytes) × (fold_on (suc n) line start first ≡ some out)
        × Folded first (drop start line) out
  unfolding fold_on segment with_prefix
  next_Folded first start cut n e c b (out, r, f) =
      let k = cut - start in
      let same : start + k ≡ cut = omega (arith, b) in
      let rest : drop k (drop start line) ≡ drop cut line =
        drop-drop start k line ∙ ap (λ i. drop i line) same in
      (
        (take k (drop start line) ++ fold_mark) ++ out,
        ground (arith, e, c, b, r),
        add_segment first k (drop start line) out (omega (arith, b)) (rw rest f),
      )

  fold_on-Folded :
      (n start : ℕ) (first : Bool)
      → start ≤ length line
      → length line - start + 1 ≤ n
      → (out : Bytes) × (fold_on n line start first ≡ some out) × Folded first (drop start line) out
  unfolding fold_on segment
  fold_on-Folded zero start first s m = ground (arith, m)
  fold_on-Folded (suc n) start first s m =
      elim (Bool-cases (ltb (budget first) (length line - start))) [
        | inl e ↦
            let cut = next_cut line start first in
            let b = next_cut-bounds line start first h (ground (arith, e)) in
            let ih =
              fold_on-Folded n cut false (omega (arith, b, ltb→lt _ _ e))
                (omega (arith, b, m, ltb→lt _ _ e)) in
            next_Folded first start cut n (ltb→lt _ _ e) refl b ih
        | inr e ↦ (
          drop start line,
          rw e refl,
          whole_segment first (drop start line) (ground (arith, e, length-drop start line)),
        )
      ]

  -- A line in which a cut goes back by three bytes at most, as in UTF-8 text, is folded within one
  -- turn for each byte: the output is the line in segments, with CR, LF and a space between them, no
  -- byte lost or changed, and no line of it is longer than 2048 bytes.
  pub append_folded-Folded : (out : Bytes) × (append_folded line ≡ some out) × Folded true line out
  unfolding append_folded
  append_folded-Folded = fold_on-Folded (length line + 1) 0 true (omega arith) (omega arith)
