-- ===== src/Server/Life/Closed.antt =====
-- What the server's goroutines have done when they return: a signal has come before listen returns,
-- handleConn has cleared and closed its connection, and a stream has been handled and closed.
use mathlib.Core.Path.{subst}
use paqet.Prelude.{ℕ, suc, ◌-◌, ◌≡◌, refl, sym, true, [], ◌∷◌, All, All-append}
use paqet.Prelude.Places.{set_at, All_get, All_set}
use paqet.Send.{SendHandle}
use paqet.Server.Life.{
  Listening, ConnPhase, closing, Conn, StrmPhase, working, Strm, running, World, start, Step,
  signal, close_listener, look, leave, accept, refuse, again, leave_failed, conn_look, conn_leave,
  conn_strm, conn_fail, conn_clear, conn_panic, conn_close, strm_handle, strm_panic, strm_close,
  return, conn_of, strm_of, Run, here, next,
}

-- A connection is closed after it is cleared, and its goroutine ends after that.
pub record OkConn (c : Conn) : Type 0 where
  pub is_cleared : c.phase ≡ closing → c.cleared ≡ true
  pub is_over : c.phase ≡ ConnPhase.ended → (c.cleared ≡ true) × (c.closed ≡ true)

pub record OkStrm (s : Strm) : Type 0 where
  pub is_handled : s.phase ≡ working → s.handled ≡ true
  pub is_over : s.phase ≡ StrmPhase.ended → (s.handled ≡ true) × (s.closed ≡ true)

pub record Told (w : World) : Type 0 where
  pub by_signal : w.status ≡ running → w.cancelled ≡ true → w.signalled ≡ true
  pub listened : w.listening ≡ Listening.ended → w.signalled ≡ true
  pub conns_ok : All OkConn w.conns
  pub strms_ok : All OkStrm w.strms

module _ {w : World} (r : w.status ≡ running) (h : Told w) where
  -- A step that leaves connections and streams alone.
  same_lists :
      (u : World)
      → u.conns ≡ w.conns
      → u.strms ≡ w.strms
      → (u.status ≡ running → u.cancelled ≡ true → u.signalled ≡ true)
      → (u.listening ≡ Listening.ended → u.signalled ≡ true)
      → Told u
  same_lists u c s b l = record {
    by_signal = b;
    listened = l;
    conns_ok = subst (All OkConn) (sym c) h.conns_ok;
    strms_ok = subst (All OkStrm) (sym s) h.strms_ok;
  }

  -- A step of one connection.
  one_conn :
      (i : ℕ) (d : Conn) (k : ℕ) (g : SendHandle)
      → OkConn d
      → Told (record w { conns = set_at w.conns i d; wg = k; send = g })
  one_conn i d k g o = record {
    by_signal = h.by_signal;
    listened = h.listened;
    conns_ok = All_set OkConn w.conns i d h.conns_ok o;
    strms_ok = h.strms_ok;
  }

  one_strm :
      (i : ℕ) (s : Strm) (k : ℕ) (g : SendHandle)
      → OkStrm s
      → Told (record w { strms = set_at w.strms i s; wg = k; send = g })
  one_strm i s k g o = record {
    by_signal = h.by_signal;
    listened = h.listened;
    conns_ok = h.conns_ok;
    strms_ok = All_set OkStrm w.strms i s h.strms_ok o;
  }

  Step-Told : {u : World} → Step w u → Told u
  Step-Told (signal c) = same_lists _ refl refl (λ a b. refl) (λ a. refl)
  Step-Told (close_listener c l) = same_lists _ refl refl h.by_signal h.listened
  Step-Told (look l c) = same_lists _ refl refl h.by_signal (λ a. cc)
  Step-Told (leave l c) = same_lists _ refl refl h.by_signal (λ a. h.by_signal r c)
  Step-Told (accept rem l) = record {
    by_signal = h.by_signal;
    listened = λ a. cc;
    conns_ok =
        All-append OkConn w.conns (conn_of rem ∷ []) h.conns_ok
          (record { is_cleared = λ a. cc; is_over = λ a. cc }, tt);
    strms_ok = h.strms_ok;
  }
  Step-Told (refuse l) = same_lists _ refl refl h.by_signal (λ a. cc)
  Step-Told (again l c) = same_lists _ refl refl h.by_signal (λ a. cc)
  Step-Told (leave_failed l c) = same_lists _ refl refl h.by_signal (λ a. h.by_signal r c)
  Step-Told (conn_look i c at p q) =
      one_conn i _ w.wg w.send (record { is_cleared = λ a. cc; is_over = λ a. cc })
  Step-Told (conn_leave i c at p q) =
      one_conn i _ w.wg w.send (record { is_cleared = λ a. cc; is_over = λ a. cc })
  Step-Told (conn_strm i c bs at p) = record {
    by_signal = h.by_signal;
    listened = h.listened;
    conns_ok =
        All_set OkConn w.conns i _ h.conns_ok (record { is_cleared = λ a. cc; is_over = λ a. cc });
    strms_ok =
        All-append OkStrm w.strms (strm_of c.remote bs ∷ []) h.strms_ok
          (record { is_handled = λ a. cc; is_over = λ a. cc }, tt);
  }
  Step-Told (conn_fail i c at p) =
      one_conn i _ w.wg w.send (record { is_cleared = λ a. cc; is_over = λ a. cc })
  Step-Told (conn_clear i c g at p q) =
      one_conn i _ w.wg g (record { is_cleared = λ a. refl; is_over = λ a. cc })
  Step-Told (conn_panic i c at p q) = same_lists _ refl refl (λ a. cc) h.listened
  Step-Told (conn_close i c at p) =
      let o = All_get OkConn w.conns i c at h.conns_ok in
      one_conn i _ (w.wg - 1) w.send
        (record { is_cleared = λ a. cc; is_over = λ a. (o.is_cleared p, refl) })
  Step-Told (strm_handle i s at p q) =
      one_strm i _ w.wg _ (record { is_handled = λ a. refl; is_over = λ a. cc })
  Step-Told (strm_panic i s at p q) = same_lists _ refl refl (λ a. cc) h.listened
  Step-Told (strm_close i s at p) =
      let o = All_get OkStrm w.strms i s at h.strms_ok in
      one_strm i _ (w.wg - 1) w.send
        (record { is_handled = λ a. cc; is_over = λ a. (o.is_handled p, refl) })
  Step-Told (return z) = same_lists _ refl refl (λ a. cc) h.listened

start-Told : (h : SendHandle) → Told (start h)
unfolding start
start-Told h = record { by_signal = λ r c. cc; listened = λ a. cc; conns_ok = tt; strms_ok = tt }

pub Run-Told : (h : SendHandle) (n : ℕ) (u : World) → Run (start h) n u → Told u
Run-Told h n u here = start-Told h
Run-Told h (suc n) u (next {u = v} r s st) = Step-Told s (Run-Told h n v r) st
