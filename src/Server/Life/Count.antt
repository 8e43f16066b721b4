-- ===== src/Server/Life/Count.antt =====
-- The wait group of internal/server/server.go counts the goroutines that have not returned.
use paqet.Prelude.{ℕ, ◌+◌, ◌≡◌, refl, true, All, arith}
use paqet.Prelude.Places.{total, total-set_at, total-append}
use paqet.Send.{SendHandle}
use paqet.Server.Life.{
  Listening, ConnPhase, clearing, closing, Conn, StrmPhase, working, Strm, running, returned, World,
  start, conn_of, strm_of, Step, signal, close_listener, look, leave, accept, refuse, again,
  leave_failed, conn_look, conn_leave, conn_strm, conn_fail, conn_clear, conn_panic, conn_close,
  strm_handle, strm_panic, strm_close, return, Run, here, next,
}

abbrev pub listening_live : Listening → ℕ
listening_live Listening.ended = 0
listening_live _ = 1

abbrev pub conn_live : Conn → ℕ
conn_live c = elim c.phase [ ConnPhase.ended ↦ 0 | _ ↦ 1 ]

abbrev pub strm_live : Strm → ℕ
strm_live s = elim s.phase [ StrmPhase.ended ↦ 0 | _ ↦ 1 ]

-- The goroutines of the group that have not returned.
abbrev pub goroutines : World → ℕ
goroutines w = listening_live w.listening + total conn_live w.conns + total strm_live w.strms

pub record Inv (w : World) : Type 0 where
  pub counted : w.wg ≡ goroutines w
  pub over : w.status ≡ returned → (w.wg ≡ 0) × (w.listener_closed ≡ true)

pub start-Inv : (h : SendHandle) → Inv (start h)
unfolding start
start-Inv h = record { counted = refl; over = λ e. cc }

Step-Inv : {w u : World} → w.status ≡ running → Inv w → Step w u → Inv u
Step-Inv {w} r h (signal c) = record { counted = h.counted; over = λ e. cc }
Step-Inv {w} r h (close_listener c l) = record { counted = h.counted; over = λ e. cc }
Step-Inv {w} r h (look l c) = ground (arith, h)
Step-Inv {w} r h (leave l c) = ground (arith, h)
Step-Inv {w} r h (accept rem l) = ground (arith, h, l, total-append conn_live w.conns (conn_of rem))
Step-Inv {w} r h (refuse l) = ground (arith, h)
Step-Inv {w} r h (again l c) = ground (arith, h)
Step-Inv {w} r h (leave_failed l c) = ground (arith, h)
Step-Inv {w} r h (conn_look i c at p q) =
    ground (
      arith,
      h,
      p,
      total-set_at conn_live w.conns i c (record c { phase = ConnPhase.accepting }) at,
    )
Step-Inv {w} r h (conn_leave i c at p q) =
    ground (arith, h, p, total-set_at conn_live w.conns i c (record c { phase = clearing }) at)
Step-Inv {w} r h (conn_strm i c bs at p) = ground (
  arith,
  h,
  p,
  total-set_at conn_live w.conns i c (record c { phase = ConnPhase.looking }) at,
  total-append strm_live w.strms (strm_of c.remote bs),
)
Step-Inv {w} r h (conn_fail i c at p) =
    ground (arith, h, p, total-set_at conn_live w.conns i c (record c { phase = clearing }) at)
Step-Inv {w} r h (conn_clear i c g at p q) = ground (
  arith,
  h,
  p,
  total-set_at conn_live w.conns i c (record c { phase = closing; cleared = true }) at,
)
Step-Inv {w} r h (conn_panic i c at p q) = ground (arith, h)
Step-Inv {w} r h (conn_close i c at p) = ground (
  arith,
  h,
  p,
  total-set_at conn_live w.conns i c (record c { phase = ConnPhase.ended; closed = true }) at,
)
Step-Inv {w} r h (strm_handle i s at p q) = ground (
  arith,
  h,
  p,
  total-set_at strm_live w.strms i s (record s { phase = working; handled = true }) at,
)
Step-Inv {w} r h (strm_panic i s at p q) = ground (arith, h)
Step-Inv {w} r h (strm_close i s at p) = ground (
  arith,
  h,
  p,
  total-set_at strm_live w.strms i s (record s { phase = StrmPhase.ended; closed = true }) at,
)
Step-Inv {w} r h (return z) = ground (arith, h)

pub Run-Inv : {w u : World} {n : ℕ} → Inv w → Run w n u → Inv u
Run-Inv h here = h
Run-Inv h (next r s st) = Step-Inv s (Run-Inv h r) st

-- No goroutine of the group is left: listen, the connections, which are cleared and closed, and
-- the streams, which are handled and closed.
pub record AllEnded (w : World) : Type 0 where
  pub listen_ended : w.listening ≡ Listening.ended
  pub conns_ended :
      All
        (λ (c : Conn). (c.phase ≡ ConnPhase.ended) × (c.cleared ≡ true) × (c.closed ≡ true))
        w.conns
  pub strms_ended :
      All
        (λ (s : Strm). (s.phase ≡ StrmPhase.ended) × (s.handled ≡ true) × (s.closed ≡ true))
        w.strms
