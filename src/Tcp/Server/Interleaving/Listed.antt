-- ===== src/Tcp/Server/Interleaving/Listed.antt =====
-- Whom the list of clients holds while the threads run in any order.
use gologincase.Common.{ℕ, ◌≡◌, ◌↔◌, inl, inr, Bool, true, some, Buffer, Table, find}
use gologincase.Dispatcher.{Handler}
use gologincase.Tcp.Server.{State}
use gologincase.Tcp.Server.Interleaving.{System, running, fresh, Reach}
use gologincase.Tcp.Server.Interleaving.Invariant.{cid_of, entered, Unused, KeepsTables, Inv-fresh}
use gologincase.Tcp.Server.Interleaving.Steps.{Reach-Inv}

module _ {ℓ} {A : Type ℓ} (accepts : ℕ → Buffer → Bool) (hash : Buffer → ℕ)
    (handlers : Table (Handler (State A))) (keeps : KeepsTables hash handlers) where
  -- Of a server that has just been started, in whatever order the threads of its clients run: if no
  -- handler changes the tables, and the system gives a new client no number that a thread or the list
  -- still has, then as long as `stop` is not called the list has under a number just the connection whose
  -- thread has that number and has entered it.
  pub Reach-listed :
      (socket : ℕ) (a : A) (s : System A) (n o : ℕ)
      → Reach accepts hash handlers Unused (fresh socket a) s
      → s.phase ≡ running
      → (find n s.state.client_list ≡ some o)
        ↔ ((cid_of (s.thread o) ≡ some n) × (entered (s.thread o) ≡ true))
  Reach-listed socket a s n o r up =
      let v = Reach-Inv accepts hash handlers keeps r (Inv-fresh socket a) in
      (
        λ h. elim (v.live n o h) [ inl t ↦ t | inr (gone, over) ↦ absurd (over up) ],
        λ h. v.listed n o h.0 h.1,
      )
