-- ===== src/Tcp/Server/Interleaving/Steps.antt =====
-- Every step of the threads of a server and of `stop` keeps the invariant.
use gologincase.Common.{
  ℕ, ◌≡◌, refl, ap, inl, inr, Option-cases, Bool-cases, Bool, true, false, not, ◌&&◌, [], ◌∷◌, none,
  some, Buffer, Table, find, erase, put, find-erase, find-put, arith, ◌==◌,
}
use gologincase.Packet.{cmd_of}
use gologincase.Dispatcher.{Handler, dispatch}
use gologincase.Tcp.{Connection}
use gologincase.Tcp.Session.{Received}
use gologincase.Tcp.Server.{State, packet_handler, after_recv, send_object}
use gologincase.Tcp.Server.Interleaving.{
  serving, reading, handling, closing, ending, joining, ended, System, has_object, release, clear,
  drop_object, drop_objects, Step, accept, enter, test, finish, receive, break, handle, leave,
  close, join_acceptor, join, Reach, here, later,
}
use gologincase.Tcp.Server.Interleaving.Invariant.{
  cid_of, entered, Unused, KeepsTables, tables, stores, Inv,
}
use gologincase.Tcp.Server.Interleaving.Moves.{
  Inv-moved, Inv-accepted, Inv-entered, Inv-left, Inv-finished, Inv-stopping,
}

-- Sending does not touch the tables.
pub send_object-tables {ℓ} :
    {A : Type ℓ} (accepts : ℕ → Buffer → Bool) (o : ℕ) (cmd buff : Buffer) (s : State A)
    → tables (send_object accepts o cmd buff s).1 ≡ tables s
unfolding send_object
send_object-tables accepts o cmd buff s = ground arith

pub find-has_object : (n o : ℕ) (m : Table ℕ) → find n m ≡ some o → has_object o m ≡ true
unfolding find
find-has_object n o [] h = cc
find-has_object n o ((k, p) ∷ m) h = ground (arith, find-has_object n o m)

-- A store in which the connection at one number has been replaced.
stores-put :
    (o p : ℕ) (c d : Connection) (m : Table Connection)
    → find o m ≡ some c
    → stores (put o d m) p ≡ stores m p
stores-put o p c d m found = ground (arith, find-put o p d m, found)

module _ {ℓ} {A : Type ℓ} where
  stores-drop_object :
      (o p : ℕ) (s : State A)
      → stores (drop_object o s).objects p ≡ (not (o == p) && stores s.objects p)
  unfolding drop_object
  stores-drop_object o p s = ground (arith, find-erase o p s.objects)

  stores-drop_objects :
      (p : ℕ) (m : Table ℕ) (s : State A)
      → stores (drop_objects m s).objects p ≡ (not (has_object p m) && stores s.objects p)
  unfolding drop_objects
  stores-drop_objects p [] s = refl
  stores-drop_objects p ((n, o) ∷ m) s =
      ground (arith, stores-drop_objects p m (drop_object o s), stores-drop_object o p s)

  release-tables :
      (n o : ℕ) (s : State A) → find n s.client_list ≡ some o → tables (release o s) ≡ tables s
  unfolding release
  release-tables n o s h = rw (find-has_object n o s.client_list h, release) refl

module _ {ℓ} {A : Type ℓ} (s : System A) (v : Inv s) where
  -- After `stop` there is nothing left.
  pub stores-clear :
      ((o : ℕ) → s.thread o ≡ none) → (p : ℕ) → stores (clear s.state).objects p ≡ false
  unfolding clear
  stores-clear none_left p = elim (Bool-cases (stores s.state.objects p)) [
    | inl h ↦ elim (v.owned p h) [
      | inl t ↦ absurd (ground (arith, t, none_left p))
      | inr (n, l) ↦ ground (
        arith,
        stores-drop_objects p s.state.client_list s.state,
        find-has_object n p s.state.client_list l,
      )
    ]
    | inr h ↦ ground (arith, stores-drop_objects p s.state.client_list s.state, h)
  ]

  Inv-joined :
      ((o : ℕ) → s.thread o ≡ none) → Inv (record s { state = clear s.state; phase = ended })
  unfolding clear find
  Inv-joined none_left = record {
    live = λ m p h. cc;
    listed = λ m p h e. ground (arith, none_left p);
    unlisted = λ m p h e. refl;
    apart = v.apart;
    stored = λ p h. ground (arith, none_left p);
    held = λ m p h. cc;
    owned = λ p h. ground (arith, h, stores-clear none_left p);
  }

module _ {ℓ} {A : Type ℓ} (accepts : ℕ → Buffer → Bool) (hash : Buffer → ℕ)
    (handlers : Table (Handler (State A))) where
  -- A failed `recv` takes the number out of the list, and the connection out of the store.
  pub after_recv-tables :
      (got : Received) (n o : ℕ) (s : State A)
      → got.ok ≡ false
      → tables (after_recv accepts hash handlers got n o s).1
        ≡ (erase n s.client_list, erase o s.objects)
  unfolding after_recv
  after_recv-tables got n o s lost = ground (arith, lost)

  module _ (keeps : KeepsTables hash handlers) where
    packet_handler-tables :
        (cid : ℕ) (header buff : Buffer) (o : ℕ) (s next : State A)
        → packet_handler accepts hash handlers cid header buff o s ≡ some next
        → tables next ≡ tables s
    unfolding packet_handler
    packet_handler-tables cid header buff o s next h = elim (Option-cases (cmd_of header)) [
      | inl e ↦ ground (arith, e)
      | inr (cmd, e) ↦
          (let r = (dispatch hash handlers cmd (record { server_client_id = cid }) buff [] s).0 in
            ground (
              arith,
              e,
              keeps cmd (record { server_client_id = cid }) buff [] s,
              send_object-tables accepts o r.cmd r.out r.state,
            ))
    ]

    Step-Inv : {s t : System A} → Step accepts hash handlers Unused s t → Inv s → Inv t
    Step-Inv {s} (accept o n free new unused taken) v =
        Inv-accepted s v _ o n free new unused refl refl
    Step-Inv {s} (enter o n at) v = Inv-entered s v _ o n at refl refl
    Step-Inv {s} (test o n at up) v =
        Inv-moved s v s.state o n serving reading at refl refl refl (λ p. refl)
    Step-Inv {s} (finish o n at over) v =
        Inv-finished s v _ o n at over (
          release-tables n o s.state
            (v.listed n o (ap (λ t. cid_of t) at) (ap (λ t. entered t) at)))
    Step-Inv {s} (receive o n c memory a at found read) v =
        Inv-moved s v _ o n reading _ at refl refl refl
          (λ p. stores-put o p c _ s.state.objects found)
    Step-Inv {s} (break o n c memory a at found lost) v =
        Inv-moved s v _ o n reading _ at refl refl refl
          (λ p. stores-put o p c _ s.state.objects found)
    Step-Inv {s} (handle o n header buff next at done) v =
        let same = packet_handler-tables n header buff o s.state next done in
        Inv-moved s v next o n (handling header buff) serving at refl refl
          (ap (λ (t : Table ℕ × Table Connection). t.0) same)
          (λ p. ap (λ (t : Table ℕ × Table Connection). stores t.1 p) same)
    Step-Inv {s} (leave o n got at lost) v =
        let same = after_recv-tables got n o s.state lost in
        Inv-left s v _ o n (closing got) at refl (ap (λ (t : Table ℕ × Table Connection). t.0) same)
          (ap (λ (t : Table ℕ × Table Connection). t.1) same)
    Step-Inv {s} (close up) v = Inv-stopping s v _ ending (λ h. cc) refl
    Step-Inv {s} (join_acceptor now) v = Inv-stopping s v s.state joining (λ h. cc) refl
    Step-Inv {s} (join now none_left) v = Inv-joined s v none_left

    pub Reach-Inv : {s t : System A} → Reach accepts hash handlers Unused s t → Inv s → Inv t
    Reach-Inv here v = v
    Reach-Inv (later r st) v = Step-Inv st (Reach-Inv r v)
