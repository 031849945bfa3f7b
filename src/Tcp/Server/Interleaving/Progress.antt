-- ===== src/Tcp/Server/Interleaving/Progress.antt =====
-- `stop` can return: nothing but the clients holds it up.
use gologincase.Common.{
  ℕ, suc, zero, ◌+◌, ◌≤◌, ◌<◌, ◌≡◌, ◌≢◌, refl, sym, subst, ◌∙◌, inl, inr, Bool, false, Option, none,
  some, Buffer, Table, arith, Option-cases,
}
use native.Mathlib.Decide.{dec_lt}
use gologincase.Packet.{cmd_of}
use gologincase.Dispatcher.{Handler}
use gologincase.Tcp.Session.{Received}
use gologincase.Tcp.Server.{State}
use gologincase.Tcp.Server.Interleaving.{
  Pc, created, serving, reading, handling, closing, Phase, running, ending, joining, ended, Thread,
  System, update, fresh, Step, accept, enter, test, finish, receive, break, handle, leave, close,
  join_acceptor, join, here, later,
}
use gologincase.Tcp.Server.Interleaving.Invariant.{Unused, KeepsTables, Inv, Inv-fresh}
use gologincase.Tcp.Server.Interleaving.Steps.{Reach-Inv}
use gologincase.Tcp.Server.Interleaving.Endings.{IsSound, Goes, Reach-trans, Ends-thread}

-- A `recv` after which a thread leaves has failed, and there are only so many threads.
record Ordinary (f : ℕ → Option Thread) : Type 0 where
  lost : (o n : ℕ) (r : Received) → f o ≡ some (record { cid = n; pc = closing r }) → r.ok ≡ false
  bound : ℕ
  bounded : (o : ℕ) → bound ≤ o → f o ≡ none

Ordinary-update :
    (f : ℕ → Option Thread) (o : ℕ) (t : Option Thread)
    → ((n : ℕ) (r : Received) → t ≡ some (record { cid = n; pc = closing r }) → r.ok ≡ false)
    → Ordinary f
    → Ordinary (update f o t)
Ordinary-update f o t failed v = record {
  lost = λ p n r h. ground (arith, failed n r, v.lost p n r);
  bound = v.bound + suc o;
  bounded = λ p h. ground (arith, v.bounded p);
}

module _ {ℓ} {A : Type ℓ} (accepts : ℕ → Buffer → Bool) (hash : Buffer → ℕ)
    (handlers : Table (Handler (State A))) where
  module _ (keeps : KeepsTables hash handlers) where
    -- The threads below a number, one after another.
    ends_below :
        (n : ℕ) (s : System A)
        → Inv s
        → s.phase ≢ running
        → ((o : ℕ) → IsSound (s.thread o))
        → (u : System A) × Goes accepts hash handlers s u
          × (((o : ℕ) → o < n → u.thread o ≡ none)
              × ((o : ℕ) → n ≤ o → u.thread o ≡ s.thread o)
              × (u.phase ≡ s.phase))
    ends_below zero s v over sound = (s, here, ((λ o h. absurd (omega arith)), (λ o h. refl), refl))
    ends_below (suc n) s v over sound =
        let (u, r, (below, above, still)) = ends_below n s v over sound in
        elim (Option-cases (u.thread n)) [
          | inl gone ↦ (
            u,
            r,
            ((λ o h. ground (arith, gone, below o)), (λ o h. above o (omega arith)), still),
          )
          | inr (t, at) ↦
              (let (w, q, (gone, others, same)) =
                  Ends-thread accepts hash handlers u n t.cid t.pc
                    (Reach-Inv accepts hash handlers keeps r v) (λ h. over (sym still ∙ h)) at
                    (subst IsSound (sym (above n (omega arith)) ∙ at) (sound n)) in
                (
                  w,
                  Reach-trans accepts hash handlers r q,
                  (
                    (λ o h. ground (arith, gone, others o, below o)),
                    (λ o h. others o (omega arith) ∙ above o (omega arith)),
                    same ∙ still,
                  ),
                ))
        ]

    Step-Ordinary :
        {s t : System A}
        → Step accepts hash handlers Unused s t
        → Ordinary s.thread
        → Ordinary t.thread
    Step-Ordinary {s} (accept o n free new unused taken) v =
        Ordinary-update s.thread o _ (λ m r h. cc) v
    Step-Ordinary {s} (enter o n at) v = Ordinary-update s.thread o _ (λ m r h. cc) v
    Step-Ordinary {s} (test o n at up) v = Ordinary-update s.thread o _ (λ m r h. cc) v
    Step-Ordinary {s} (finish o n at over) v = Ordinary-update s.thread o _ (λ m r h. cc) v
    Step-Ordinary {s} (receive o n c memory a at found read) v =
        Ordinary-update s.thread o _ (λ m r h. cc) v
    Step-Ordinary {s} (break o n c memory a at found lost) v =
        Ordinary-update s.thread o _ (λ m r h. ground (arith, lost)) v
    Step-Ordinary {s} (handle o n header buff next at done) v =
        Ordinary-update s.thread o _ (λ m r h. cc) v
    Step-Ordinary {s} (leave o n r at lost) v = Ordinary-update s.thread o _ (λ m r h. cc) v
    Step-Ordinary {s} (close up) v = v
    Step-Ordinary {s} (join_acceptor now) v = v
    Step-Ordinary {s} (join now none_left) v = v

    Reach-Ordinary :
        {s t : System A} → Goes accepts hash handlers s t → Ordinary s.thread → Ordinary t.thread
    Reach-Ordinary here v = v
    Reach-Ordinary (later r st) v = Step-Ordinary st (Reach-Ordinary r v)

    IsSound-thread :
        (s : System A) (o : ℕ) (t : Option Thread)
        → Ordinary s.thread
        → ((p n : ℕ) (header buff : Buffer)
            → s.thread p ≡ some (record { cid = n; pc = handling header buff })
            → (cmd : Buffer) × (cmd_of header ≡ some cmd))
        → s.thread o ≡ t
        → IsSound t
    IsSound-thread s o none v named at = tt
    IsSound-thread s o (some t) v named at = by_pc t.pc at
      where
        by_pc :
            (pc : Pc)
            → s.thread o ≡ some (record t { pc = pc })
            → IsSound (some (record t { pc = pc }))
        by_pc created h = tt
        by_pc serving h = tt
        by_pc reading h = tt
        by_pc (handling header buff) h = named o t.cid header buff h
        by_pc (closing r) h = v.lost o t.cid r h

    -- The rest of `stop`, when no thread of a client is left.
    returns_empty :
        (s : System A)
        → s.phase ≢ running
        → ((o : ℕ) → s.thread o ≡ none)
        → (t : System A) × Goes accepts hash handlers s t × (t.phase ≡ ended)
    returns_empty s over none_left = by_phase s.phase refl
      where
        by_phase :
            (p : Phase)
            → s.phase ≡ p
            → (t : System A) × Goes accepts hash handlers s t × (t.phase ≡ ended)
        by_phase running e = absurd (over e)
        by_phase ending e = (_, later (later here (join_acceptor e)) (join refl none_left), refl)
        by_phase joining e = (_, later here (join e none_left), refl)
        by_phase ended e = (s, here, e)

    -- Of a server that has just been started, in whatever order its threads go on until `stop` has been
    -- called: if no handler changes the tables, the system gives a new client no number that a thread or
    -- the list still has, and the header of each packet that is being handled names a command, then the
    -- steps of the threads can go on such that `stop` returns: there is no deadlock among them.
    pub stop_returns :
        (socket : ℕ) (a : A) (s : System A)
        → Goes accepts hash handlers (fresh socket a) s
        → s.phase ≢ running
        → ((o n : ℕ) (header buff : Buffer)
            → s.thread o ≡ some (record { cid = n; pc = handling header buff })
            → (cmd : Buffer) × (cmd_of header ≡ some cmd))
        → (t : System A) × Goes accepts hash handlers s t × (t.phase ≡ ended)
    stop_returns socket a s r over named =
        let v = Reach-Inv accepts hash handlers keeps r (Inv-fresh socket a) in
        let w =
          Reach-Ordinary r (record { lost = λ o n q h. cc; bound = 0; bounded = λ o h. refl }) in
        let (u, q, (below, above, still)) =
          ends_below w.bound s v over (λ o. IsSound-thread s o (s.thread o) w named refl) in
        let empty : (o : ℕ) → u.thread o ≡ none = λ o. elim (dec_lt o w.bound) [
          | yes lt ↦ below o lt
          | no ge ↦ above o (omega arith) ∙ w.bounded o (omega arith)
        ] in
        let (t, p, done) = returns_empty u (λ h. over (sym still ∙ h)) empty in
        (t, Reach-trans accepts hash handlers q p, done)
