-- ===== src/Tcp/Server/Interleaving.antt =====
-- The threads of a server, interleaved: `client_handler` of src/tcp/server/server.cpp in the steps that
-- its locks and calls make, the accepting thread, which starts one for each client, and a call of
-- `stop` by the thread that owns the server. What socket numbers the system may give to a new client
-- is the parameter `Allows`.
pub mod Invariant
pub mod Moves
pub mod Steps
pub mod Listed
pub mod Calls
pub mod Waiting
pub mod Stop
pub mod Endings
pub mod Progress
pub mod Reuse
use gologincase.Common.{
  ℕ, ◌≡◌, ◌≢◌, Bool, true, false, List, [], ◌∷◌, ◌++◌, Option, none, some, Buffer, Table, find,
  emplace, erase, put, if◌then◌else◌, ◌==◌, ◌||◌,
}
use gologincase.Dispatcher.{Handler}
use gologincase.Tcp.{Connection, closes}
use gologincase.Tcp.Session.{Answers, Received, create, destroy, recv}
use gologincase.Tcp.Server.{State, packet_handler, after_recv}

-- Where the thread of a client stands: before it enters the list; at the test of its loop; in `recv`;
-- with a packet that it has read; or with a `recv` that failed, before it takes the client out of the
-- list.
pub data Pc : Type 0 where
  created serving reading : Pc
  handling : (header buff : Buffer) → Pc
  closing : Received → Pc

-- `cid` is the number of the client's socket.
pub record Thread : Type 0 where
  pub cid : ℕ
  pub pc : Pc

-- How far `stop` is: it has not been called, and the status is `up`; it has set the status to `close`
-- and closed the server's socket, and joins the accepting thread; it joins the threads of the clients;
-- or it has returned.
pub data Phase : Type 0 where
  running ending joining ended : Phase

-- The accepting thread tests the status after `::accept`. Once the status is not `up` it may still
-- start the thread of a client for which the test came before, and then it leaves its loop.
abbrev pub takes : Phase → Bool
takes running = true
takes ending = true
takes _ = false

abbrev pub after_accept : Phase → Phase
after_accept ending = joining
after_accept p = p

-- `thread o` is the thread that serves the connection with the number `o`, and `listener` is
-- `m_server_socket`.
pub record System {ℓ} (A : Type ℓ) : Type ℓ where
  pub state : State A
  pub thread : ℕ → Option Thread
  pub phase : Phase
  pub listener : ℕ

abbrev pub update : (ℕ → Option Thread) → ℕ → Option Thread → ℕ → Option Thread
update f o t p = if o == p then t else f p

-- Whether the list owns a connection.
abbrev pub has_object : ℕ → Table ℕ → Bool
has_object o [] = false
has_object o ((n, p) ∷ m) = p == o || has_object o m

module _ {ℓ} {A : Type ℓ} where
  -- The last owner of a connection goes.
  unfoldable pub drop_object : ℕ → State A → State A
  drop_object o s = elim (find o s.objects) [
    | none ↦ s
    | some c ↦ record s { objects = erase o s.objects; trace = s.trace ++ destroy c }
  ]

  -- A thread goes, and with it one owner of its connection.
  unfoldable pub release : ℕ → State A → State A
  release o s = if has_object o s.client_list then s else drop_object o s

  unfoldable pub drop_objects : Table ℕ → State A → State A
  drop_objects [] s = s
  drop_objects ((n, o) ∷ m) s = drop_objects m (drop_object o s)

  -- `m_client_list.clear`.
  unfoldable pub clear : State A → State A
  clear s = record (drop_objects s.client_list s) { client_list = [] }

module _ {ℓ} {A : Type ℓ} (accepts : ℕ → Buffer → Bool) (hash : Buffer → ℕ)
    (handlers : Table (Handler (State A))) (Allows : System A → ℕ → Type 0) where
  pub data Step (s : System A) : System A → Type ℓ where
    -- `std::make_shared` in a new thread.
    accept :
        (o n : ℕ)
        → s.thread o ≡ none
        → find o s.state.objects ≡ none
        → Allows s n
        → takes s.phase ≡ true
        → Step s (record s {
          state = record s.state { objects = put o (create n) s.state.objects };
          thread = update s.thread o (some (record { cid = n; pc = created }));
          phase = after_accept s.phase;
        })
    -- `m_client_list.emplace`.
    enter :
        (o n : ℕ)
        → s.thread o ≡ some (record { cid = n; pc = created })
        → Step s (record s {
          state = record s.state { client_list = emplace n o s.state.client_list };
          thread = update s.thread o (some (record { cid = n; pc = serving }));
        })
    -- The test of the loop.
    test :
        (o n : ℕ)
        → s.thread o ≡ some (record { cid = n; pc = serving })
        → s.phase ≡ running
        → Step s (record s { thread = update s.thread o (some (record { cid = n; pc = reading })) })
    -- The same when the status is not `up`: the thread ends, and its client stays in the list.
    finish :
        (o n : ℕ)
        → s.thread o ≡ some (record { cid = n; pc = serving })
        → s.phase ≢ running
        → Step s (record s { state = release o s.state; thread = update s.thread o none })
    -- `recv` reads a packet.
    receive :
        (o n : ℕ) (c : Connection) (memory : Buffer) (a : Answers)
        → s.thread o ≡ some (record { cid = n; pc = reading })
        → find o s.state.objects ≡ some c
        → (recv c memory a).ok ≡ true
        → Step s (record s {
          state = record s.state {
            objects = put o (recv c memory a).conn s.state.objects;
            trace = s.state.trace ++ (recv c memory a).calls;
          };
          thread = update s.thread o (
              some (record {
                cid = n;
                pc = handling (recv c memory a).header (recv c memory a).buff;
              }));
        })
    -- `recv` fails.
    break :
        (o n : ℕ) (c : Connection) (memory : Buffer) (a : Answers)
        → s.thread o ≡ some (record { cid = n; pc = reading })
        → find o s.state.objects ≡ some c
        → (recv c memory a).ok ≡ false
        → Step s (record s {
          state = record s.state {
            objects = put o (recv c memory a).conn s.state.objects;
            trace = s.state.trace ++ (recv c memory a).calls;
          };
          thread = update s.thread o (some (record { cid = n; pc = closing (recv c memory a) }));
        })
    -- `packet_handler`.
    handle :
        (o n : ℕ) (header buff : Buffer) (next : State A)
        → s.thread o ≡ some (record { cid = n; pc = handling header buff })
        → packet_handler accepts hash handlers n header buff o s.state ≡ some next
        → Step s (record s {
          state = next;
          thread = update s.thread o (some (record { cid = n; pc = serving }));
        })
    -- `m_client_list.erase`, and the end of the thread.
    leave :
        (o n : ℕ) (got : Received)
        → s.thread o ≡ some (record { cid = n; pc = closing got })
        → got.ok ≡ false
        → Step s (record s {
          state = (after_recv accepts hash handlers got n o s.state).1;
          thread = update s.thread o none;
        })
    -- `stop`, from its call to the join of the accepting thread.
    close :
        s.phase ≡ running
        → Step s (record s {
          state = record s.state { trace = s.state.trace ++ closes s.listener ∷ [] };
          phase = ending;
        })
    -- The accepting thread has left its loop.
    join_acceptor : s.phase ≡ ending → Step s (record s { phase = joining })
    -- All threads of the clients have ended: the rest of `stop`.
    join :
        s.phase ≡ joining
        → ((o : ℕ) → s.thread o ≡ none)
        → Step s (record s { state = clear s.state; phase = ended })

  pub data Reach (s : System A) : System A → Type ℓ where
    here : Reach s s
    later : {t u : System A} → Reach s t → Step t u → Reach s u

-- A server that has just been started on a socket.
abbrev pub fresh {ℓ} : {A : Type ℓ} → ℕ → A → System A
fresh socket a = record {
  state = record { app = a; objects = []; client_list = []; trace = [] };
  thread = λ o. none;
  phase = running;
  listener = socket;
}
