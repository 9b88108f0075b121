-- ===== src/LineFolder/Endless.antt =====
-- include/mail_system/back/algorithm/line_folder.h: a line on which `append_folded` does not return.
use proto_relay.Base.{
  ℕ, zero, suc, ◌+◌, ◌<◌, ◌≤◌, ◌≡◌, refl, arith, true, false, none, length, Bytes,
}
use proto_relay.LineFolder.{is_continuation, byte_at, utf8_boundary, next_cut, with_prefix, fold_on}

-- Behind its first byte, the line has continuation bytes only.
abbrev pub IsContinued : Bytes → Type 0
IsContinued line = (i : ℕ) → 1 ≤ i → i < length line → is_continuation (byte_at line i) ≡ true

utf8_boundary-zero :
    (line : Bytes) (c : ℕ) → IsContinued line → c < length line → utf8_boundary line c ≡ 0
unfolding utf8_boundary
utf8_boundary-zero line zero h b = refl
utf8_boundary-zero line (suc c) h b =
    ground (arith, h (suc c) (omega arith) b, utf8_boundary-zero line c h (omega arith))

module _ (line : Bytes) (h : IsContinued line) (long : 4096 ≤ length line) where
  later_turns : (n start : ℕ) → start + 2047 < length line → fold_on n line start false ≡ none
  unfolding fold_on next_cut with_prefix
  later_turns zero start b = refl
  later_turns (suc n) start b = ground (
    arith,
    utf8_boundary-zero line (start + 2047) h b,
    later_turns n 0 (omega arith),
    later_turns n 2047 (omega arith),
  )

  -- On a line of at least 4096 bytes that, behind its first byte, are all continuation bytes of
  -- UTF-8, `append_folded` does not return: whatever the number of turns, the loop has not ended.
  -- The cut goes back below `start`, and the loop starts over.
  pub fold_on-endless : (n : ℕ) → fold_on n line 0 true ≡ none
  unfolding fold_on next_cut with_prefix
  fold_on-endless zero = refl
  fold_on-endless (suc n) =
      ground (arith, utf8_boundary-zero line 2048 h (omega arith), later_turns n 2048 (omega arith))
