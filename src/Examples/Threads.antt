-- ===== src/Examples/Threads.antt =====
-- The threads of a server.
use gologincase.Common.{
  ◌⊎◌, ℕ, ◌≡◌, ◌≢◌, ◌↔◌, refl, Bool, true, false, none, some, Buffer, Table, find, put, emplace, [],
  arith, if◌then◌else◌, ◌==◌,
}
use gologincase.Provider.{create}
use gologincase.Dispatcher.{Handler}
use gologincase.Tcp.Errors.{wsaewouldblock, no_error, get_last_error}
use gologincase.Tcp.Session as Session
use gologincase.Tcp.Session.{Answers, Received, failed, recv}
use gologincase.Tcp.Session.Failures.{recv_keeps}
use gologincase.Tcp.Server.{send_to}
use gologincase.Tcp.Server.Interleaving.{
  Pc, update, created, serving, reading, closing, Thread, System, running, ended, fresh, Reach,
  here, later, accept, enter, test, break, leave, close, join_acceptor, join,
}
use gologincase.Tcp.Server.Interleaving.Invariant.{Unused, cid_of, entered}
use gologincase.Tcp.Server.Interleaving.Stop.{IsEmpty}
use gologincase.Tcp.Server.Interleaving.Calls.{ends_count}
use gologincase.Tcp.Server.Interleaving.Waiting.{Alone, Waits, AllWait}
use gologincase.Tcp.Server.Interleaving.Reuse.{reused_number}
use gologincase.Chat.{World, App}
use gologincase.Chat.Commands.{create_dispatcher_serves}
use gologincase.Chat.Listed.{app_listed}
use gologincase.Chat.Stopping.{app_stop_waits, app_stop_done, app_stop_returns}
use gologincase.Tcp.{Connection}
use gologincase.Examples.Codec.{codec}
use gologincase.Examples.Data.{engine, accepts, hash, hash-NoCollision, login, pass, world}

abbrev nothing_yet : Answers
nothing_yet = record {
  header = failed;
  body = failed;
  last_error = wsaewouldblock;
  so_error = no_error;
  ioctl_done = true;
}

recv_keeps_example :
    ((recv (Session.create 7) [] nothing_yet).ok ≡ false)
    × (((recv (Session.create 7) [] nothing_yet).conn ≡ Session.create 7)
        ↔ ((wsaewouldblock ≡ wsaewouldblock) ⊎ (true ≡ false)))
unfolding Session.create
recv_keeps_example = recv_keeps (Session.create 7) [] nothing_yet (ground arith) refl (ground arith)

nothing_read : (recv (Session.create 7) [] nothing_yet).ok ≡ false
unfolding recv Session.after_error Session.or_so_error get_last_error
nothing_read = refl

stored : find 0 (put 1 (Session.create 8) (put 0 (Session.create 7) [])) ≡ some (Session.create 7)
unfolding find put
stored = refl

abbrev handlers : Table (Handler World)
handlers = (create_dispatcher_serves codec accepts engine hash hash-NoCollision).0

abbrev start : App
start = record { provider = create login pass; engines = 0 }

no_thread : (o : ℕ) → cid_of none ≢ some 7
no_thread o h = cc

other_thread :
    (o : ℕ)
    → cid_of (
        update
          (update (fresh 3 start).thread 0 (some (record { cid = 7; pc = created })))
          0
          (some (record { cid = 7; pc = serving }))
          o)
      ≢ some 8
other_thread o h = ground arith

no_entry : find {V = ℕ} 7 [] ≡ none
unfolding find
no_entry = refl

no_object : find {V = Connection} 0 [] ≡ none
unfolding find
no_object = refl

other_entry : find {V = ℕ} 8 (emplace 7 0 []) ≡ none
unfolding find emplace
other_entry = refl

other_object : find 1 (put 0 (Session.create 7) []) ≡ none
unfolding find put
other_object = refl

-- Two clients connect; the read of the first fails.
abbrev reached : (s : System App) × Reach accepts hash handlers Unused (fresh 3 start) s
reached = (
  _,
  later
      (later
        (later
          (later
            (later (later here (accept 0 7 refl no_object (no_thread, no_entry) refl))
              (enter 0 7 refl))
            (accept 1 8 refl other_object (other_thread, other_entry) refl))
          (test 0 7 refl refl))
        (break 0 7 (Session.create 7) [] nothing_yet refl stored nothing_read))
      (enter 1 8 refl),
)

app_listed_example :
    (find 8 reached.0.state.client_list ≡ some 1)
    ↔ ((cid_of (reached.0.thread 1) ≡ some 8) × (entered (reached.0.thread 1) ≡ true))
app_listed_example =
    app_listed codec accepts engine hash handlers 3 start reached.0 8 1
      (create_dispatcher_serves codec accepts engine hash hash-NoCollision).1 reached.1 refl

-- A client connects, and `stop` is called while its thread is in `recv`.
abbrev connected : (s : System App) × Reach accepts hash handlers Unused (fresh 3 start) s
connected = (
  _,
  later (later (later here (accept 0 7 refl no_object (no_thread, no_entry) refl)) (enter 0 7 refl))
      (test 0 7 refl refl),
)

abbrev waiting : (s : System App) × Reach accepts hash handlers Unused (fresh 3 start) s
waiting = (_, later connected.1 (close refl))

app_stop_returns_example :
    (u : System App) × Reach accepts hash handlers Unused waiting.0 u × (u.phase ≡ ended)
app_stop_returns_example =
    app_stop_returns codec accepts engine hash handlers
      (create_dispatcher_serves codec accepts engine hash hash-NoCollision).1 3 start waiting.0
      waiting.1 (λ h. cc) (λ o n header buff h. ground arith)

alone : Alone 0 7 connected.0
unfolding find put
alone = record { stored = λ p c e ne. ground arith; taken = λ p m got e ne. ground arith }

abbrev closed : (s : System App) × Reach accepts hash handlers Unused connected.0 s
closed = (_, later (later here (close refl)) (join_acceptor refl))

app_stop_waits_example :
    (ends_count 7 closed.0.state.trace ≡ ends_count 7 connected.0.state.trace)
    × (closed.0.thread 0 ≡ some (record { cid = 7; pc = reading }))
    × (closed.0.phase ≢ ended)
unfolding AllWait Waits Session.create
app_stop_waits_example =
    app_stop_waits codec accepts engine hash handlers
      (create_dispatcher_serves codec accepts engine hash hash-NoCollision).1 0 7 closed.1
      (ground arith) refl (λ h. cc) (ground arith) alone ((tt, tt), tt)

first_stored : find 0 (put 0 (Session.create 7) []) ≡ some (Session.create 7)
unfolding find put
first_stored = refl

none_left :
    (o : ℕ)
    → update
        (update
          (update
            (update
              (update (fresh 3 start).thread 0 (some (record { cid = 7; pc = created })))
              0
              (some (record { cid = 7; pc = serving })))
            0
            (some (record { cid = 7; pc = reading })))
          0
          (some (record { cid = 7; pc = closing (recv (Session.create 7) [] nothing_yet) })))
        0
        none
        o
      ≡ none
none_left o = ground arith

-- The client closes, its thread ends, and `stop` returns.
abbrev stopped : (s : System App) × Reach accepts hash handlers Unused (fresh 3 start) s
stopped = (
  _,
  later
      (later
        (later
          (later waiting.1
            (break 0 7 (Session.create 7) [] nothing_yet refl first_stored nothing_read))
          (leave 0 7 (recv (Session.create 7) [] nothing_yet) refl nothing_read))
        (join_acceptor refl))
      (join refl none_left),
)

app_stop_done_example : IsEmpty stopped.0
app_stop_done_example =
    app_stop_done codec accepts engine hash handlers
      (create_dispatcher_serves codec accepts engine hash hash-NoCollision).1 3 start stopped.0
      stopped.1 refl

-- The first client's `recv` has failed.
abbrev broken_read : Received
broken_read = recv (Session.create 7) [] nothing_yet

abbrev broken : System App
broken = record {
  state = world;
  thread = λ o. if o == 0 then some (record { cid = 7; pc = closing broken_read }) else none;
  phase = running;
  listener = 3;
}

abbrev is_closing : Pc → Bool
is_closing (closing got) = true
is_closing _ = false

-- The system gives away a number whose threads have all failed to read.
abbrev Closed : System App → ℕ → Type 0
Closed s n = (o : ℕ) (t : Thread) → s.thread o ≡ some t → t.cid ≡ n → is_closing t.pc ≡ true

world_object : find 1 world.objects ≡ none
unfolding find
world_object = refl

reused_number_example :
    (t : System App) × Reach accepts hash handlers Closed broken t
    × (t.thread 1 ≡ some (record { cid = 7; pc = serving }))
    × (find 7 t.state.client_list ≡ none)
    × ((cmd buff : Buffer)
        → send_to accepts (record { server_client_id = 7 }) cmd buff t.state ≡ (false, t.state))
reused_number_example =
    reused_number accepts hash handlers Closed broken 0 1 7 broken_read refl nothing_read refl
      world_object (λ o t h e. ground arith) refl
