-- ===== src/Tests/Folding.antt =====
-- include/mail_system/back/algorithm/line_folder.h, at concrete inputs.
use proto_relay.Base.{
  ℕ, zero, suc, ◌<◌, ◌≡◌, refl, arith, true, none, some, [], ◌∷◌, ◌++◌, length, Bytes, codes,
}
use proto_relay.LineFolder.{
  feed, fold_on, append_folded, fold_lines, split_lines, push_byte, both, ended, unstuff_dot,
  keep_carry, byte_at, utf8_boundary, with_prefix,
}
use proto_relay.LineFolder.Chunks.{feed_after, feed-append}
use proto_relay.LineFolder.Endless.{IsContinued, fold_on-endless}
use proto_relay.LineFolder.Segments.{HasShortRuns, Folded, append_folded-Folded}

-- A stuffed line loses a dot, the unfinished line is kept.
feed_test :
    feed (codes "a") (13 ∷ 10 ∷ codes "..b" ++ 13 ∷ 10 ∷ codes "c")
    ≡ some (codes "a" ++ 13 ∷ 10 ∷ codes ".b" ++ 13 ∷ 10 ∷ [], codes "c")
unfolding feed split_lines push_byte fold_lines both ended append_folded fold_on unstuff_dot
    keep_carry with_prefix
feed_test = refl

feed-append_example :
    feed_after (feed [] (codes "ab" ++ 13 ∷ [])) (10 ∷ codes ".c" ++ 13 ∷ 10 ∷ [])
    ≡ feed [] ((codes "ab" ++ 13 ∷ []) ++ 10 ∷ codes ".c" ++ 13 ∷ 10 ∷ [])
feed-append_example = feed-append [] (codes "ab" ++ 13 ∷ []) (10 ∷ codes ".c" ++ 13 ∷ 10 ∷ [])

-- `n` continuation bytes.
unfoldable run_of : ℕ → Bytes
run_of zero = []
run_of (suc n) = 128 ∷ run_of n

length-run_of : (n : ℕ) → length (run_of n) ≡ n
unfolding run_of
length-run_of zero = refl
length-run_of (suc n) = omega (arith, length-run_of n)

byte_at-run_of : (n i : ℕ) → i < n → byte_at (run_of n) i ≡ 128
unfolding run_of
byte_at-run_of zero i h = ground (arith, h)
byte_at-run_of (suc n) zero h = refl
byte_at-run_of (suc n) (suc i) h = byte_at-run_of n i (omega arith)

abbrev long_line : Bytes
long_line = 97 ∷ run_of 4095

long_line-IsContinued : IsContinued long_line
long_line-IsContinued zero h k = ground (arith, h)
long_line-IsContinued (suc i) h k =
    ground (arith, byte_at-run_of 4095 i (omega (arith, k, length-run_of 4095)))

fold_on-endless_example : fold_on 1000000 long_line 0 true ≡ none
fold_on-endless_example =
    fold_on-endless long_line long_line-IsContinued (omega (arith, length-run_of 4095)) 1000000

subject : HasShortRuns (codes "ok")
unfolding utf8_boundary
subject zero h = omega arith
subject (suc zero) h = omega arith
subject (suc (suc c)) h = ground (arith, h)

append_folded-Folded_example :
    (out : Bytes) × (append_folded (codes "ok") ≡ some out) × Folded true (codes "ok") out
append_folded-Folded_example = append_folded-Folded (codes "ok") subject
