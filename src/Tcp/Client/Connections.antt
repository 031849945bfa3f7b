-- ===== src/Tcp/Client/Connections.antt =====
-- What any sequence of `connect` and `disconnect` does to the sockets and the thread of the client.
use gologincase.Common.{
  ℕ, ◌+◌, ◌≡◌, refl, Bool, true, false, List, [], ◌∷◌, ◌++◌, arith, if◌then◌else◌, ◌==◌, ◌&&◌,
}
use gologincase.Tcp.{is_connected, Sys, opens, sends, shuts, closes}
use gologincase.Tcp.Client.{
  Client, ConnectAnswers, create, connect, disconnect, destroy, start_thread,
}

-- A call of the owner of the client.
pub data Call : Type 0 where
  connects : ConnectAnswers → Call
  disconnects : Call

-- `false`: the program has been terminated.
abbrev perform : Call → Client → Client × Bool
perform (connects a) c = connect a c
perform disconnects c = (disconnect c, true)

-- The calls of the owner, in order, until the program ends.
abbrev pub perform_all : List Call → Client → Client × Bool
perform_all [] c = (c, true)
perform_all (call ∷ calls) c =
    let (d, alive) = perform call c in
    let rest = perform_all calls d in if alive then rest else (d, false)

-- How often a socket has been opened and closed.
abbrev pub opened_count : ℕ → List Sys → ℕ
opened_count n [] = 0
opened_count n (opens s ∷ t) = (if s == n then 1 else 0) + opened_count n t
opened_count n (_ ∷ t) = opened_count n t

abbrev pub closed_count : ℕ → List Sys → ℕ
closed_count n [] = 0
closed_count n (closes s ∷ t) = (if s == n then 1 else 0) + closed_count n t
closed_count n (_ ∷ t) = closed_count n t

opened_count-append :
    (n : ℕ) (t u : List Sys) → opened_count n (t ++ u) ≡ opened_count n t + opened_count n u
opened_count-append n [] u = omega arith
opened_count-append n (opens s ∷ t) u = omega (arith, opened_count-append n t u)
opened_count-append n (sends s b ∷ t) u = opened_count-append n t u
opened_count-append n (shuts s ∷ t) u = opened_count-append n t u
opened_count-append n (closes s ∷ t) u = opened_count-append n t u

closed_count-append :
    (n : ℕ) (t u : List Sys) → closed_count n (t ++ u) ≡ closed_count n t + closed_count n u
closed_count-append n [] u = omega arith
closed_count-append n (opens s ∷ t) u = closed_count-append n t u
closed_count-append n (sends s b ∷ t) u = closed_count-append n t u
closed_count-append n (shuts s ∷ t) u = closed_count-append n t u
closed_count-append n (closes s ∷ t) u = omega (arith, closed_count-append n t u)

-- 1 for the socket of a client that is connected.
abbrev pub held : ℕ → Client → ℕ
held n c = if is_connected c.conn.status && c.conn.socket == n then 1 else 0

-- There is a thread exactly while the client is connected, and of each socket there is one opening
-- more than closings if the connected client has it, and as many otherwise.
abbrev Inv : Client → Type 0
Inv c =
    (c.joinable ≡ is_connected c.conn.status)
    × ((n : ℕ) → opened_count n c.trace ≡ closed_count n c.trace + held n c)

connect-counts :
    (n : ℕ) (a : ConnectAnswers) (c : Client)
    → opened_count n c.trace ≡ closed_count n c.trace + held n c
    → opened_count n (connect a c).0.trace
      ≡ closed_count n (connect a c).0.trace + held n (connect a c).0
unfolding connect start_thread
connect-counts n a c v = ground (
  arith,
  opened_count-append n c.trace (opens a.socket ∷ []),
  closed_count-append n c.trace (opens a.socket ∷ []),
  opened_count-append n (c.trace ++ opens a.socket ∷ []) (closes a.socket ∷ []),
  closed_count-append n (c.trace ++ opens a.socket ∷ []) (closes a.socket ∷ []),
)

disconnect-counts :
    (n : ℕ) (c : Client)
    → opened_count n c.trace ≡ closed_count n c.trace + held n c
    → opened_count n (disconnect c).trace ≡ closed_count n (disconnect c).trace
unfolding disconnect
disconnect-counts n c v = ground (
  arith,
  opened_count-append n c.trace (shuts c.conn.socket ∷ closes c.conn.socket ∷ []),
  closed_count-append n c.trace (shuts c.conn.socket ∷ closes c.conn.socket ∷ []),
)

disconnect-held : (n : ℕ) (c : Client) → held n (disconnect c) ≡ 0
unfolding disconnect
disconnect-held n c = ground arith

connect-Inv :
    (a : ConnectAnswers) (c : Client) → Inv c → Inv (connect a c).0 × ((connect a c).1 ≡ true)
unfolding connect start_thread
connect-Inv a c v = ((ground (arith, v.0), λ n. connect-counts n a c (v.1 n)), ground (arith, v.0))

disconnect-Inv : (c : Client) → Inv c → Inv (disconnect c)
unfolding disconnect
disconnect-Inv c v =
    (ground (arith, v.0), λ n. omega (arith, disconnect-counts n c (v.1 n), disconnect-held n c))

perform-Inv :
    (call : Call) (c : Client) → Inv c → Inv (perform call c).0 × ((perform call c).1 ≡ true)
perform-Inv (connects a) c v = connect-Inv a c v
perform-Inv disconnects c v = (disconnect-Inv c v, refl)

perform_all-Inv :
    (calls : List Call) (c : Client)
    → Inv c
    → Inv (perform_all calls c).0 × ((perform_all calls c).1 ≡ true)
perform_all-Inv [] c v = (v, refl)
perform_all-Inv (call ∷ calls) c v =
    let (kept, alive) = perform-Inv call c v in rw alive (perform_all-Inv calls _ kept)

destroy-Inv :
    (c : Client)
    → Inv c
    → ((destroy c).joinable ≡ false)
      × ((n : ℕ) → opened_count n (destroy c).trace ≡ closed_count n (destroy c).trace)
unfolding destroy
destroy-Inv c v =
    (ground (arith, disconnect-Inv c v), λ n. ground (arith, disconnect-counts n c (v.1 n)))

-- After any calls of `connect` and `disconnect` on a new client, whatever the system answers, the
-- program has not been terminated by a thread that is still joinable; there is a thread exactly if
-- the status is `connected`; and each socket has been closed as often as it was opened, but for the
-- socket of a client that is connected, which has been closed once less. After the destructor there
-- is no thread, and each socket has been closed as often as it was opened.
pub perform_all-create :
    (calls : List Call) (socket : ℕ)
    → let (c, alive) = perform_all calls (create socket) in
      (alive ≡ true)
      × (c.joinable ≡ is_connected c.conn.status)
      × ((n : ℕ) → opened_count n c.trace ≡ closed_count n c.trace + held n c)
      × ((destroy c).joinable ≡ false)
      × ((n : ℕ) → opened_count n (destroy c).trace ≡ closed_count n (destroy c).trace)
unfolding create
perform_all-create calls socket =
    let (v, alive) = perform_all-Inv calls (create socket) (refl, λ n. refl) in
    let (gone, balanced) = destroy-Inv (perform_all calls (create socket)).0 v in
    (alive, v.0, v.1, gone, balanced)
