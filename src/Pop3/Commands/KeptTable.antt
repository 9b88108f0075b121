-- ===== src/Pop3/Commands/KeptTable.antt =====
-- include/mail_system/back/mailServer/fsm/pop3/traditional_pop3_fsm.tpp: the handlers that write the
-- state, and the table of all handlers, keep the invariant of a session.
use proto_relay.Base.{
  ◌≡◌, refl, ap, ◌∙◌, true, false, ◌||◌, not, some, ◌++◌, codes, All, inl, inr, ◌⊎◌,
}
use proto_relay.Fsm.Pop3.{Pop3State, Pop3Event, make_pop3_desc}
use proto_relay.Fsm.Engine.{Entry, passes_strict, has_row, leads_to}
use proto_relay.Pop3.{Pop3Session, Context, Job, Op, pop3_state_key, pop3_event_key}
use proto_relay.Pop3.Numbers.{decimal}
use proto_relay.Pop3.Handlers.{
  Server, Drain, pop3_handlers, send_line, handle_init_connect, handle_capa, handle_stat,
  handle_list, handle_uidl, handle_noop, handle_quit,
}
use proto_relay.Pop3.Commands.Kept.{
  IsOk, keep, if_Ok, emit-IsOk, send_line-IsOk, close_after_flush-IsOk, settle_closing-IsOk,
  settle-IsOk, enter-IsOk, Drains, is_authorization, is_transaction, is_idle,
}
use proto_relay.Pop3.Commands.KeptHandlers.{
  handle_user-IsOk, handle_pass-IsOk, handle_dele-IsOk, handle_rset-IsOk, handle_retr-IsOk,
  handle_error-IsOk, begin_transition-IsOk, send_line-core,
}

initial_passes :
    (state : Pop3State)
    → state ≡ Pop3State.initial
    → passes_strict make_pop3_desc state Pop3State.authorization ≡ true
unfolding passes_strict has_row leads_to make_pop3_desc
initial_passes state e = rw e refl

quit_passes :
    (state : Pop3State)
    → (state ≡ Pop3State.authorization) ⊎ (state ≡ Pop3State.transaction)
    → passes_strict make_pop3_desc state Pop3State.update ≡ true
unfolding passes_strict has_row leads_to make_pop3_desc
quit_passes state (inl e) = rw e refl
quit_passes state (inr e) = rw e refl

handle_quit-IsOk :
    (v : Server) (s : Pop3Session)
    → passes_strict make_pop3_desc s.state Pop3State.update ≡ true
    → (is_authorization s.state || is_transaction s.state) ≡ true
    → is_idle s.context.job ≡ true
    → IsOk s
    → IsOk (handle_quit v s)
unfolding handle_quit
handle_quit-IsOk v s p e i h =
    if_Ok (not s.context.is_authenticated)
      (close_after_flush-IsOk _ (
        send_line-IsOk _ _ (
          settle_closing-IsOk v Pop3State.update (record s { clean_close = true }) p i refl
            (keep refl h))))
      (emit-IsOk _ _ (
        begin_transition-IsOk Job.quitting
          (record s { context = record s.context { dropped = true; heartbeat = false } }) e
          (record {
            logged = h.logged;
            job = h.job;
            waits = h.waits;
            sound = h.sound;
            known = h.known;
          })))

handle_init_connect-IsOk :
    (v : Server) (drain : Drain) (s : Pop3Session)
    → Drains drain
    → s.state ≡ Pop3State.initial
    → is_idle s.context.job ≡ true
    → IsOk s
    → IsOk (handle_init_connect v drain s)
unfolding handle_init_connect
handle_init_connect-IsOk v drain s d e i h =
    let text = codes "+OK ProtoRelay POP3 server ready <" ++ (decimal v.now ++ codes "@pop3>") in
    let c = send_line-core text s in
    let i' = ap (λ c. is_idle c.1.job) c ∙ i in
    let h' = send_line-IsOk text s h in
    settle-IsOk v drain (some Pop3State.authorization) (send_line text s) d i'
      (enter-IsOk v Pop3State.authorization (send_line text s)
        (initial_passes _ (ap (λ c. c.0) c ∙ e)) i' refl h')
      h'

-- What a handler of the table keeps, in its state and with nothing in flight.
pub record EntryOk (e : Entry Pop3State Pop3Event Context Op) : Type 0 where
  pub keeps :
      (drain : Drain) (s : Pop3Session)
      → Drains drain
      → s.state ≡ e.from
      → is_idle s.context.job ≡ true
      → IsOk s
      → IsOk (e.run drain s).0
  pub returns : (drain : Drain) (s : Pop3Session) → (e.run drain s).1 ≡ true

pub pop3_handlers-Ok : (v : Server) → All EntryOk (pop3_handlers v)
unfolding pop3_handlers handle_capa handle_noop handle_stat handle_list handle_uidl
pop3_handlers-Ok v = (
  record { keeps = handle_init_connect-IsOk v; returns = λ d s. refl },
  (
    record { keeps = λ d s k e i h. handle_user-IsOk s e i h; returns = λ d s. refl },
    (
      record { keeps = λ d s k e i h. handle_pass-IsOk v s e h; returns = λ d s. refl },
      (
        record { keeps = λ d s k e i h. send_line-IsOk _ s h; returns = λ d s. refl },
        (
          record { keeps = λ d s k e i h. send_line-IsOk _ s h; returns = λ d s. refl },
          (
            record {
              keeps =
                  λ d s k e i h. handle_quit-IsOk v s (quit_passes s.state (inl e)) (rw e refl) i h;
              returns = λ d s. refl;
            },
            (
              record { keeps = λ d s k e i h. send_line-IsOk _ s h; returns = λ d s. refl },
              (
                record { keeps = λ d s k e i h. send_line-IsOk _ s h; returns = λ d s. refl },
                (
                  record { keeps = λ d s k e i h. send_line-IsOk _ s h; returns = λ d s. refl },
                  (
                    record {
                      keeps = λ d s k e i h. handle_retr-IsOk v s e h;
                      returns = λ d s. refl;
                    },
                    (
                      record { keeps = λ d s k e i h. handle_dele-IsOk s h; returns = λ d s. refl },
                      (
                        record {
                          keeps = λ d s k e i h. send_line-IsOk _ s h;
                          returns = λ d s. refl;
                        },
                        (
                          record {
                            keeps = λ d s k e i h. handle_rset-IsOk s h;
                            returns = λ d s. refl;
                          },
                          (
                            record {
                              keeps = λ d s k e i h. send_line-IsOk _ s h;
                              returns = λ d s. refl;
                            },
                            (
                              record {
                                keeps = λ d s k e i h.
                                    handle_quit-IsOk v s (quit_passes s.state (inr e)) (rw e refl) i
                                      h;
                                returns = λ d s. refl;
                              },
                              (
                                record {
                                  keeps = λ d s k e i h. handle_error-IsOk s h;
                                  returns = λ d s. refl;
                                },
                                (
                                  record {
                                    keeps = λ d s k e i h. handle_error-IsOk s h;
                                    returns = λ d s. refl;
                                  },
                                  (
                                    record {
                                      keeps = λ d s k e i h. handle_error-IsOk s h;
                                      returns = λ d s. refl;
                                    },
                                    (
                                      record {
                                        keeps = λ d s k e i h. handle_error-IsOk s h;
                                        returns = λ d s. refl;
                                      },
                                      tt,
                                    ),
                                  ),
                                ),
                              ),
                            ),
                          ),
                        ),
                      ),
                    ),
                  ),
                ),
              ),
            ),
          ),
        ),
      ),
    ),
  ),
)
