-- ===== src/Node/Link/Revoked.antt =====
-- src/framework/node/node_link.cpp: a peer that a new snapshot of the trust store leaves out.
use proto_relay.Base.{
  ℕ, ◌≡◌, refl, ◌∙◌, arith, true, false, Option, none, some, List, [], ◌∷◌, length, ◌==◌, Bytes,
  bytes_eq,
}
use proto_relay.Node.Trust.{Snapshot, trusts}
use proto_relay.Node.Link.{
  Link, LinkError, Outside, complete, complete_found, complete_all, emit, emit_state, disconnect,
  disconnect_at, disconnect_from, reset_connection, maybe_reconnect, has_connection,
}
use proto_relay.Node.Link.Tasks.{recheck_target, run_recheck}
use proto_relay.Node.Link.Drained.{disconnect-connection}

-- A step that leaves the mark of a revoked peer and the count of the reconnects.
record SameMarks (l l' : Link) : Type 0 where
  revoked : l'.peer_revoked ≡ l.peer_revoked
  reconnects : l'.reconnect_count ≡ l.reconnect_count

then_SameMarks : {l1 l2 l3 : Link} → SameMarks l1 l2 → SameMarks l2 l3 → SameMarks l1 l3
then_SameMarks h k = record {
  revoked = k.revoked ∙ h.revoked;
  reconnects = k.reconnects ∙ h.reconnects;
}

complete-SameMarks :
    (id : ℕ) (error : LinkError) (payload : Bytes) (l : Link)
    → SameMarks l (complete id error payload l)
unfolding complete complete_found emit
complete-SameMarks id error payload l = record { revoked = ground arith; reconnects = ground arith }

complete_all-SameMarks :
    (error : LinkError) (m : List (ℕ × ℕ)) (l : Link) → SameMarks l (complete_all error m l)
unfolding complete_all
complete_all-SameMarks error [] l = record { revoked = refl; reconnects = refl }
complete_all-SameMarks error ((id, c) ∷ m) l =
    then_SameMarks (complete-SameMarks id error [] l) (complete_all-SameMarks error m _)

disconnect_at-SameMarks :
    (x : Outside) (error : LinkError) (o : Option ℕ) (l : Link)
    → l.peer_revoked ≡ true
    → SameMarks l (disconnect_at x error o l)
unfolding disconnect_at disconnect_from reset_connection emit_state maybe_reconnect emit
disconnect_at-SameMarks x error none l h = record { revoked = refl; reconnects = refl }
disconnect_at-SameMarks x error (some connection) l h =
    let l1 = reset_connection connection l in
    let s = complete_all-SameMarks error l1.pending l1 in
    record {
      revoked = ground (arith, s.revoked, h);
      reconnects = ground (arith, s.revoked, s.reconnects, h);
    }

-- When the link hears of a snapshot without its peer (or, while it has none, without the peer that it
-- expects) and it is not stopped, it has no connection afterwards, the peer is marked as revoked, and
-- this step has scheduled no reconnect. One that was scheduled before, by a link without a connection,
-- stays.
pub run_recheck-revoked :
    (x : Outside) (snapshot : Snapshot) (l : Link)
    → l.stopped ≡ false
    → length (recheck_target l) == 0 ≡ false
    → bytes_eq (recheck_target l) l.options.node_id ≡ false
    → trusts (recheck_target l) snapshot.neighbors ≡ false
    → (has_connection (run_recheck x snapshot l) ≡ false)
      × ((run_recheck x snapshot l).peer_revoked ≡ true)
      × ((run_recheck x snapshot l).reconnect_count ≡ l.reconnect_count)
unfolding run_recheck disconnect
run_recheck-revoked x snapshot l s e n t =
    let l' = record l { peer_revoked = true } in
    let m = disconnect_at-SameMarks x LinkError.permission_denied l'.connection l' refl in
    ground (
      arith,
      s,
      e,
      n,
      t,
      m.revoked,
      m.reconnects,
      disconnect-connection x LinkError.permission_denied l',
    )
