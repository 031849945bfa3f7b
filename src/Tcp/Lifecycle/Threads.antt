-- ===== src/Tcp/Lifecycle/Threads.antt =====
-- The threads and sockets of the server over its life.
use gologincase.Common.{
  ℕ, ◌≡◌, ◌≢◌, ◌↔◌, sym, Bool, true, false, not, ◌&&◌, List, [], ◌∷◌, ◌++◌, arith, if◌then◌else◌,
  ◌==◌, keep,
}
use mathlib.Core.List.{append-nil, append_assoc}
use gologincase.Tcp.{up, is_up, opens, closes, invalid_socket}
use gologincase.Tcp.Lifecycle.{
  Life, returns, throws, stop, StartAnswers, start, start_closed, destroy, Accepted, accept_client,
  handler_thread_routine,
}

-- The accepting thread runs exactly while the server is up.
abbrev pub IsSound : Life → Type 0
IsSound l = l.joinable ≡ is_up l.status

-- `start` keeps the server sound and always returns: it never assigns to a thread that is joinable,
-- also when the server is up and is stopped first. `stop` keeps it sound too; it throws exactly when
-- the server is not up, and otherwise leaves no client and no thread of one. The destructor keeps the
-- server sound and returns.
pub perform-IsSound :
    (l : Life)
    → IsSound l
    → ((a : StartAnswers) → IsSound (start a l).1 × ((start a l).0 ≡ returns))
      × IsSound (stop l).1
      × (((stop l).0 ≡ throws) ↔ (is_up l.status ≡ false))
      × ((stop l).0 ≡ returns → ((stop l).1.client_list ≡ []) × ((stop l).1.client_threads ≡ []))
      × IsSound (destroy l).1
      × ((destroy l).0 ≡ returns)
unfolding start stop start_closed destroy
perform-IsSound l h =
    (λ a. ground arith, ground arith, ground arith, ground arith, ground arith, ground arith)

-- A start of a sound server that is not up, for which the system opens a socket, succeeds exactly if the
-- system also sets the option, binds and listens; a start that fails leaves the socket open. The
-- destructor closes nothing then, and `stop` closes the socket, but throws.
pub start_failure :
    (a : StartAnswers) (l : Life)
    → IsSound l
    → is_up l.status ≡ false
    → a.socket ≢ invalid_socket
    → let after = (start a l).1 in
      ((after.status ≡ up) ↔ ((a.option_set ≡ true) × (a.bound ≡ true) × (a.listening ≡ true)))
      × (after.trace ≡ l.trace ++ opens a.socket ∷ [])
      × (after.status ≢ up
          → ((destroy after).1.trace ≡ l.trace ++ opens a.socket ∷ [])
            × ((stop after).0 ≡ throws)
            × ((stop after).1.trace ≡ (l.trace ++ opens a.socket ∷ []) ++ closes a.socket ∷ []))
unfolding start start_closed destroy stop
start_failure a l sound down valid = ground arith

-- The rounds that start a thread.
abbrev pub is_client : Accepted → Bool
is_client a = not (a.socket == 0) && is_up a.status_after && not (a.socket == invalid_socket)

abbrev pub sockets : List Accepted → List ℕ
sockets [] = []
sockets (a ∷ rounds) = a.socket ∷ sockets rounds

-- The rounds before the first that finds the server not up.
unfoldable pub while_up : List Accepted → List Accepted
while_up [] = []
while_up (a ∷ rounds) = let rest = a ∷ while_up rounds in if is_up a.status then rest else []

accept_client-threads :
    (a : Accepted) (l : Life)
    → (accept_client a l).client_threads
      ≡ (if is_client a then l.client_threads ++ a.socket ∷ [] else l.client_threads)
unfolding accept_client
accept_client-threads a l = ground arith

-- While the server is up each socket that `::accept` returns gets a thread, in order, and no other
-- does; whether `set_keep_alive` succeeded makes no difference.
pub handler_thread_routine-threads :
    (rounds : List Accepted) (l : Life)
    → (handler_thread_routine rounds l).client_threads
      ≡ l.client_threads ++ sockets (keep is_client (while_up rounds))
unfolding handler_thread_routine while_up
handler_thread_routine-threads [] l = sym (append-nil l.client_threads)
handler_thread_routine-threads (a ∷ rounds) l = ground (
  arith,
  accept_client-threads a l,
  handler_thread_routine-threads rounds (accept_client a l),
  append-nil l.client_threads,
  append_assoc l.client_threads (a.socket ∷ []) (sockets (keep is_client (while_up rounds))),
)
