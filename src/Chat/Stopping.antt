-- ===== src/Chat/Stopping.antt =====
-- `stop` of the server application's server, among the threads of its clients.
use gologincase.Common.{ℕ, ◌≡◌, ◌≢◌, refl, Bool, some, Buffer, Table}
use gologincase.Packet.{cmd_of}
use gologincase.Messages.Json.{Json}
use gologincase.Dispatcher.{Handler}
use gologincase.Tcp.Server.Interleaving.{System, Reach, fresh, handling, reading, running, ended}
use gologincase.Tcp.Server.Interleaving.Invariant.{Unused}
use gologincase.Tcp.Server.Interleaving.Stop.{IsEmpty, stop_done}
use gologincase.Tcp.Server.Interleaving.Progress.{stop_returns}
use gologincase.Chat.{World, App, create_dispatcher}
use gologincase.Chat.Keeping.{create_dispatcher-Keeps}
use gologincase.Tcp.{invalid_socket}
use gologincase.Tcp.Server.Interleaving.Calls.{ends_count, ends_count-send_object}
use gologincase.Tcp.Server.Interleaving.Waiting.{KeepsSockets, Alone, AllWait, Reach-Still}
use gologincase.Chat.Listed.{create_dispatcher-KeepsTables}

module _ (j : Json) (accepts : ℕ → Buffer → Bool) (engine : ℕ → ℕ → ℕ) (hash : Buffer → ℕ)
    (t : Table (Handler World)) (made : create_dispatcher j accepts engine hash ≡ some t)
    (socket : ℕ) (a : App) (s : System App)
    (r : Reach accepts hash t Unused (fresh socket a) s) where
  -- Of the server application that has just been started, in whatever order its threads and `stop` go on
  -- and whatever its clients send: if the system gives a new client no number that a thread or the list
  -- still has, then when `stop` has returned no thread of a client is left, the list is empty, and
  -- every connection has been destroyed.
  pub app_stop_done : s.phase ≡ ended → IsEmpty s
  app_stop_done =
      stop_done accepts hash t (create_dispatcher-KeepsTables j accepts engine hash t made) socket a
        s r

  -- Under the same conditions, when `stop` has been called and the header of each packet that is being
  -- handled names a command, the steps of the threads can go on such that `stop` returns: there is
  -- no deadlock among them.
  pub app_stop_returns :
      s.phase ≢ running
      → ((o n : ℕ) (header buff : Buffer)
          → s.thread o ≡ some (record { cid = n; pc = handling header buff })
          → (cmd : Buffer) × (cmd_of header ≡ some cmd))
      → (u : System App) × Reach accepts hash t Unused s u × (u.phase ≡ ended)
  app_stop_returns over named =
      stop_returns accepts hash t (create_dispatcher-KeepsTables j accepts engine hash t made)
        socket a s r over named

module _ (j : Json) (accepts : ℕ → Buffer → Bool) (engine : ℕ → ℕ → ℕ) (hash : Buffer → ℕ)
    (t : Table (Handler World)) (made : create_dispatcher j accepts engine hash ≡ some t) where
  -- No handler of the server application shuts down or closes a socket.
  create_dispatcher-KeepsSockets : (n : ℕ) → KeepsSockets hash t n
  create_dispatcher-KeepsSockets n =
      create_dispatcher-Keeps (λ s. ends_count n s.trace) (λ a s. refl) (ends_count-send_object n) j
        accepts engine hash t made

  -- Of the server application: a thread is in `recv` on a valid socket, which is neither the server's nor
  -- that of another connection, and `stop` has not returned. Then, in whatever order the threads and
  -- `stop` go on and however long, if the system gives a new client no number that a thread or the
  -- list still has, and that `recv` does not return while nobody has shut down or closed its socket,
  -- then nobody does so, the thread is still in `recv`, and `stop` has not returned.
  pub app_stop_waits :
      {s u : System App} (o n : ℕ) (r : Reach accepts hash t Unused s u)
      → n ≢ invalid_socket
      → s.thread o ≡ some (record { cid = n; pc = reading })
      → s.phase ≢ ended
      → s.listener ≢ n
      → Alone o n s
      → AllWait accepts hash t o n (ends_count n s.state.trace) r
      → (ends_count n u.state.trace ≡ ends_count n s.state.trace)
        × (u.thread o ≡ some (record { cid = n; pc = reading }))
        × (u.phase ≢ ended)
  app_stop_waits {s} o n r valid at active listens alone w =
      let still =
        Reach-Still accepts hash t (create_dispatcher-KeepsTables j accepts engine hash t made) o n
          (ends_count n s.state.trace) valid (create_dispatcher-KeepsSockets n) r w
          (record { at = at; active = active; listens = listens; alone = alone; count = refl }) in
      (still.count, still.at, still.active)
