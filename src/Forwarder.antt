-- ===== src/Forwarder.antt =====
-- listenTCP (internal/forward/tcp.go) with the goroutines of its connections. Each step is one call
-- of one of them; the steps come in any order, and what Accept and the handlers come to is the
-- environment's choice, but that Accept gives no connection of a closed listener.
pub mod Ends
mod Runs
use paqet.Prelude.{
  ℕ, zero, suc, ◌+◌, ◌-◌, ◌≡◌, Bool, true, false, List, [], ◌∷◌, ◌++◌, Option, some, get_elem?,
}
use paqet.Prelude.Places.{set_at}

-- The loop of listenTCP: in Accept, at the select after an error, or returned.
pub data Loop : Type 0 where
  accepting failed ended : Loop

-- A connection whose handler runs, or that is closed.
pub data Conn : Type 0 where
  handled closed : Conn

pub record Tcp : Type 0 where
  pub loop : Loop
  pub cancelled : Bool
  pub listener_open : Bool
  pub conns : List Conn
  pub wg : ℕ

-- After net.Listen; wg counts listenTCP itself (startTCP).
unfoldable pub listening : Tcp
listening = record { loop = accepting; cancelled = false; listener_open = true; conns = []; wg = 1 }

pub data Step (w : Tcp) : Tcp → Type 0 where
  cancel : w.cancelled ≡ false → Step w (record w { cancelled = true })
  close_listener :
      w.cancelled ≡ true → w.listener_open ≡ true → Step w (record w { listener_open = false })
  accept :
      w.loop ≡ accepting
      → w.listener_open ≡ true
      → Step w (record w { conns = w.conns ++ handled ∷ []; wg = w.wg + 1 })
  refuse : w.loop ≡ accepting → Step w (record w { loop = failed })
  again : w.loop ≡ failed → w.cancelled ≡ false → Step w (record w { loop = accepting })
  leave :
      w.loop ≡ failed
      → w.cancelled ≡ true
      → Step w (record w { loop = ended; listener_open = false; wg = w.wg - 1 })
  ends :
      (i : ℕ)
      → get_elem? w.conns i ≡ some handled
      → Step w (record w { conns = set_at w.conns i closed; wg = w.wg - 1 })

pub data Run (w : Tcp) : ℕ → Tcp → Type 0 where
  here : Run w 0 w
  next : {n : ℕ} {u v : Tcp} → Run w n u → Step u v → Run w (suc n) v
