-- ===== src/Tcp/Server/Interleaving/Waiting.antt =====
-- A thread in `recv` while the other threads and `stop` go on: what they do to its socket.
use gologincase.Common.{
  ℕ, ◌≡◌, ◌≢◌, refl, sym, ap, ◌∙◌, inl, inr, Bool, [], ◌∷◌, Option, some, Buffer, Table, find, put,
  find-erase, find-put, arith, ◌==◌, Option-cases, Bool-cases,
}
use gologincase.Dispatcher.{Handler, dispatch}
use gologincase.Provider.{Cookies}
use gologincase.Packet.{cmd_of}
use gologincase.Tcp.{Connection, closes, invalid_socket}
use gologincase.Tcp.Session.{Received, create, destroy, recv}
use gologincase.Tcp.Server.{State, send_object, packet_handler, after_recv}
use gologincase.Tcp.Server.Interleaving.{
  reading, closing, ended, Thread, System, update, drop_object, release, has_object, Step, accept,
  enter, test, finish, receive, break, handle, leave, close, join_acceptor, join, Reach, here,
  later,
}
use gologincase.Tcp.Server.Interleaving.Invariant.{Unused, KeepsTables, cid_of}
use gologincase.Tcp.Server.Interleaving.Steps.{send_object-tables}
use gologincase.Tcp.Server.Interleaving.Calls.{
  ends_count, ends_count-append, ends_count-destroy, ends_count-recv, ends_count-send_object,
}

-- No packet makes a handler shut down or close a socket.
abbrev pub KeepsSockets {ℓ} : {A : Type ℓ} → (Buffer → ℕ) → Table (Handler (State A)) → ℕ → Type ℓ
KeepsSockets {A} hash handlers n =
    (cmd : Buffer) (cookies : Cookies) (input out : Buffer) (s : State A)
    → ends_count n (dispatch hash handlers cmd cookies input out s).0.state.trace
      ≡ ends_count n s.trace

-- No connection but one has a socket, and no thread but its one has taken it along.
pub record Alone {ℓ} {A : Type ℓ} (o n : ℕ) (s : System A) : Type 0 where
  pub stored : (p : ℕ) (c : Connection) → find p s.state.objects ≡ some c → p ≢ o → c.socket ≢ n
  pub taken :
      (p m : ℕ) (got : Received)
      → s.thread p ≡ some (record { cid = m; pc = closing got })
      → p ≢ o
      → got.conn.socket ≢ n

-- While a thread waits: it is in `recv`, the program of the server goes on, its socket is its own, and it
-- has been shut down or closed just `k` times.
pub record Still {ℓ} {A : Type ℓ} (o n k : ℕ) (s : System A) : Type 0 where
  pub at : s.thread o ≡ some (record { cid = n; pc = reading })
  pub active : s.phase ≢ ended
  pub listens : s.listener ≢ n
  pub alone : Alone o n s
  pub count : ends_count n s.state.trace ≡ k

-- A thread goes on to a point, with which it takes no connection along that has the socket.
taken-update {ℓ} :
    {A : Type ℓ} (o n p : ℕ) (s : System A) (t : Option Thread)
    → Alone o n s
    → ((m : ℕ) (got : Received)
        → t ≡ some (record { cid = m; pc = closing got })
        → got.conn.socket ≢ n)
    → (q m : ℕ) (got : Received)
    → update s.thread p t q ≡ some (record { cid = m; pc = closing got })
    → q ≢ o
    → got.conn.socket ≢ n
taken-update o n p s t v h q m got e ne = elim (Bool-cases (p == q)) [
  | inl same ↦ h m got (ground arith)
  | inr other ↦ v.taken q m got (ground arith) ne
]

-- A connection is replaced by one that has another socket.
stored-put {ℓ} :
    {A : Type ℓ} (o n p : ℕ) (s : System A) (d : Connection)
    → Alone o n s
    → d.socket ≢ n
    → (q : ℕ) (c : Connection) → find q (put p d s.state.objects) ≡ some c
    → q ≢ o
    → c.socket ≢ n
stored-put o n p s d v h q c e ne = ground (arith, find-put p q d s.state.objects, v.stored q c)

module _ {ℓ} {A : Type ℓ} (o n p : ℕ) (s : State A)
    (alone : (q : ℕ) (c : Connection) → find q s.objects ≡ some c → q ≢ o → c.socket ≢ n)
    (ne : p ≢ o) where
  drop_object-alone :
      (ends_count n (drop_object p s).trace ≡ ends_count n s.trace)
      × ((q : ℕ) (c : Connection)
          → find q (drop_object p s).objects ≡ some c
          → q ≢ o
          → c.socket ≢ n)
  unfolding drop_object
  drop_object-alone = elim (Option-cases (find p s.objects)) [
    | inl e ↦ rw (e, drop_object) (refl, alone)
    | inr (c, e) ↦
        rw (e, drop_object)
          (
            omega (
              arith,
              ends_count-append n s.trace (destroy c),
              ends_count-destroy n c (alone p c e ne),
            ),
            λ q d h other. ground (arith, find-erase p q s.objects, alone q d),
          )
  ]

  release-alone :
      (ends_count n (release p s).trace ≡ ends_count n s.trace)
      × ((q : ℕ) (c : Connection) → find q (release p s).objects ≡ some c → q ≢ o → c.socket ≢ n)
  unfolding release
  release-alone = elim (Bool-cases (has_object p s.client_list)) [
    | inl e ↦ rw (e, release) (refl, alone)
    | inr e ↦ rw (e, release) drop_object-alone
  ]

module _ {ℓ} {A : Type ℓ} (accepts : ℕ → Buffer → Bool) (hash : Buffer → ℕ)
    (handlers : Table (Handler (State A))) where
  -- The client of a thread sends nothing, and its connection holds: the thread's `recv` does not return
  -- unless its socket has been shut down or closed, so that the number of times is not `k` any more.
  unfoldable pub Waits :
      (o n k : ℕ) {s t : System A} → Step accepts hash handlers Unused s t → Type 0
  Waits o n k {s} (receive p m c memory a at found read) = p ≡ o → ends_count n s.state.trace ≢ k
  Waits o n k {s} (break p m c memory a at found lost) = p ≡ o → ends_count n s.state.trace ≢ k
  Waits o n k _ = Unit {0}

  unfoldable pub AllWait :
      (o n k : ℕ) {s t : System A} → Reach accepts hash handlers Unused s t → Type 0
  unfolding Waits
  AllWait o n k here = Unit {0}
  AllWait o n k (later r st) = AllWait o n k r × Waits o n k st

  module _ (keeps : KeepsTables hash handlers) (o n k : ℕ) (valid : n ≢ invalid_socket)
      (calm : KeepsSockets hash handlers n) where
    packet_handler-still :
        (p m : ℕ) (header buff : Buffer) (s next : State A)
        → packet_handler accepts hash handlers m header buff p s ≡ some next
        → (next.objects ≡ s.objects) × (ends_count n next.trace ≡ ends_count n s.trace)
    unfolding packet_handler
    packet_handler-still p m header buff s next done = elim (Option-cases (cmd_of header)) [
      | inl e ↦ absurd (cc (rw (e, packet_handler) at done))
      | inr (cmd, e) ↦
          (let r = (dispatch hash handlers cmd (record { server_client_id = m }) buff [] s).0 in
            let eq : (send_object accepts p r.cmd r.out r.state).1 ≡ next =
              cc (rw (e, packet_handler) at done) in
            let cookies : Cookies = record { server_client_id = m } in
            (
              ap (λ (x : State A). x.objects) (sym eq)
                  ∙ ap (λ (x : Table ℕ × Table Connection). x.1)
                      (send_object-tables accepts p r.cmd r.out r.state
                        ∙ keeps cmd cookies buff [] s),
              ap (λ (x : State A). ends_count n x.trace) (sym eq)
                  ∙ ends_count-send_object n accepts p r.cmd r.out r.state
                  ∙ calm cmd cookies buff [] s,
            ))
    ]

    Step-Still :
        {s t : System A} (st : Step accepts hash handlers Unused s t)
        → Waits o n k st
        → Still o n k s
        → Still o n k t
    unfolding Waits after_recv create
    Step-Still {s} (accept p m free new unused up) w v = record {
      at = ground (arith, v.at);
      active = ground arith;
      listens = v.listens;
      alone = record {
        stored =
            stored-put o n p s (create m) v.alone
              (λ h. unused.0 o (ap cid_of v.at ∙ ap some (sym h)));
        taken = taken-update o n p s _ v.alone (λ i got h. cc);
      };
      count = v.count;
    }
    Step-Still {s} (enter p m was) w v = record {
      at = ground (arith, v.at);
      active = v.active;
      listens = v.listens;
      count = v.count;
      alone = record {
        stored = v.alone.stored;
        taken = taken-update o n p s _ v.alone (λ i got h. cc);
      };
    }
    Step-Still {s} (test p m was up) w v = record {
      at = ground (arith, v.at);
      active = v.active;
      listens = v.listens;
      alone = record {
        stored = v.alone.stored;
        taken = taken-update o n p s _ v.alone (λ i got h. cc);
      };
      count = v.count;
    }
    Step-Still {s} (finish p m was over) w v =
        let ne : p ≢ o = λ e. cc (sym v.at ∙ ap s.thread (sym e) ∙ was) in
        let (same, alone) = release-alone o n p s.state v.alone.stored ne in
        record {
          at = ground (arith, v.at);
          active = v.active;
          listens = v.listens;
          alone = record { stored = alone; taken = taken-update o n p s _ v.alone (λ i got h. cc) };
          count = same ∙ v.count;
        }
    Step-Still {s} (receive p m c memory a was found read) w v =
        let ne : p ≢ o = λ e. w e v.count in
        let (same, other) = ends_count-recv n c memory a (v.alone.stored p c found ne) valid in
        record {
          at = ground (arith, v.at);
          active = v.active;
          listens = v.listens;
          alone = record {
            stored = stored-put o n p s _ v.alone other;
            taken = taken-update o n p s _ v.alone (λ i got h. cc);
          };
          count = omega (arith, ends_count-append n s.state.trace (recv c memory a).calls, v.count);
        }
    Step-Still {s} (break p m c memory a was found lost) w v =
        let ne : p ≢ o = λ e. w e v.count in
        let (same, other) = ends_count-recv n c memory a (v.alone.stored p c found ne) valid in
        record {
          at = ground (arith, v.at);
          active = v.active;
          listens = v.listens;
          alone = record {
            stored = stored-put o n p s _ v.alone other;
            taken = taken-update o n p s _ v.alone (λ i got h. ground (arith, other));
          };
          count = omega (arith, ends_count-append n s.state.trace (recv c memory a).calls, v.count);
        }
    Step-Still {s} (handle p m header buff next was done) w v =
        let (kept, same) = packet_handler-still p m header buff s.state next done in
        record {
          at = ground (arith, v.at);
          active = v.active;
          listens = v.listens;
          alone = record {
            stored = λ q c h.
                v.alone.stored q c (ap (λ (x : Table Connection). find q x) (sym kept) ∙ h);
            taken = taken-update o n p s _ v.alone (λ i got h. cc);
          };
          count = same ∙ v.count;
        }
    Step-Still {s} (leave p m got was lost) w v =
        let ne : p ≢ o = λ e. cc (sym v.at ∙ ap s.thread (sym e) ∙ was) in
        rw lost record {
          at = ground (arith, v.at);
          active = v.active;
          listens = v.listens;
          alone = record {
            stored =
                λ q c h other. ground (arith, find-erase p q s.state.objects, v.alone.stored q c);
            taken = taken-update o n p s _ v.alone (λ i x h. cc);
          };
          count = omega (
            arith,
            ends_count-append n s.state.trace (destroy got.conn),
            ends_count-destroy n got.conn (v.alone.taken p m got was ne),
            v.count,
          );
        }
    Step-Still {s} (close up) w v = record {
      at = v.at;
      active = λ h. cc;
      listens = v.listens;
      alone = record { stored = v.alone.stored; taken = v.alone.taken };
      count =
          ground
            (arith, ends_count-append n s.state.trace (closes s.listener ∷ []), v.listens, v.count);
    }
    Step-Still {s} (join_acceptor now) w v = record {
      at = v.at;
      active = λ h. cc;
      listens = v.listens;
      alone = record { stored = v.alone.stored; taken = v.alone.taken };
      count = v.count;
    }
    Step-Still {s} (join now none_left) w v = absurd (cc (sym v.at ∙ none_left o))

    -- The same over any steps.
    pub Reach-Still :
        {s t : System A} (r : Reach accepts hash handlers Unused s t)
        → AllWait o n k r
        → Still o n k s
        → Still o n k t
    unfolding AllWait
    Reach-Still here w v = v
    Reach-Still (later r st) w v = Step-Still st w.1 (Reach-Still r w.0 v)
