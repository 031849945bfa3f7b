-- ===== src/Tcp/Server/Interleaving/Stop.antt =====
-- `stop` among the threads of the clients: what is left when it has returned.
use gologincase.Common.{
  ℕ, ◌≡◌, refl, sym, ◌∙◌, Bool, false, [], none, Buffer, Table, find, is_some, arith,
}
use gologincase.Dispatcher.{Handler}
use gologincase.Tcp.Server.{State}
use gologincase.Tcp.Server.Interleaving.{
  ended, System, clear, fresh, Step, accept, enter, test, finish, receive, break, handle, leave,
  close, join_acceptor, join, Reach, here, later,
}
use gologincase.Tcp.Server.Interleaving.Invariant.{Unused, KeepsTables, Inv, Inv-fresh}
use gologincase.Tcp.Server.Interleaving.Steps.{Reach-Inv, stores-clear}

-- Nobody is served any more: there is no thread, no entry in the list, and no connection.
abbrev pub IsEmpty {ℓ} : {A : Type ℓ} → System A → Type 0
IsEmpty s =
    ((o : ℕ) → s.thread o ≡ none)
    × (s.state.client_list ≡ [])
    × ((o : ℕ) → is_some (find o s.state.objects) ≡ false)

module _ {ℓ} {A : Type ℓ} (accepts : ℕ → Buffer → Bool) (hash : Buffer → ℕ)
    (handlers : Table (Handler (State A))) where
  module _ (keeps : KeepsTables hash handlers) where
    Step-IsEmpty :
        {s t : System A}
        → Step accepts hash handlers Unused s t
        → Inv s
        → (s.phase ≡ ended → IsEmpty s)
        → t.phase ≡ ended
        → IsEmpty t
    unfolding clear
    Step-IsEmpty {s} (accept o n free new unused taken) v h e = absurd (ground arith)
    Step-IsEmpty {s} (enter o n at) v h e = absurd (cc (sym at ∙ (h e).0 o))
    Step-IsEmpty {s} (test o n at up) v h e = absurd (cc (sym at ∙ (h e).0 o))
    Step-IsEmpty {s} (finish o n at over) v h e = absurd (cc (sym at ∙ (h e).0 o))
    Step-IsEmpty {s} (receive o n c memory a at found read) v h e = absurd (cc (sym at ∙ (h e).0 o))
    Step-IsEmpty {s} (break o n c memory a at found lost) v h e = absurd (cc (sym at ∙ (h e).0 o))
    Step-IsEmpty {s} (handle o n header buff next at done) v h e = absurd (cc (sym at ∙ (h e).0 o))
    Step-IsEmpty {s} (leave o n got at lost) v h e = absurd (cc (sym at ∙ (h e).0 o))
    Step-IsEmpty {s} (close up) v h e = absurd (cc e)
    Step-IsEmpty {s} (join_acceptor now) v h e = absurd (cc e)
    Step-IsEmpty {s} (join now none_left) v h e = (none_left, refl, stores-clear s v none_left)

    -- Of a server that has just been started, in whatever order its threads and `stop` go on: if no handler
    -- changes the tables, and the system gives a new client no number that a thread or the list still
    -- has, then when `stop` has returned no thread of a client is left, the list is empty, and every
    -- connection has been destroyed.
    pub stop_done :
        (socket : ℕ) (a : A) (s : System A)
        → Reach accepts hash handlers Unused (fresh socket a) s
        → s.phase ≡ ended
        → IsEmpty s
    stop_done socket a s here e = absurd (cc e)
    stop_done socket a s (later {t} r st) e =
        Step-IsEmpty st (Reach-Inv accepts hash handlers keeps r (Inv-fresh socket a))
          (stop_done socket a t r) e
