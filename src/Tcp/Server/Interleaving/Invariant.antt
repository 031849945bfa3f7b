-- ===== src/Tcp/Server/Interleaving/Invariant.antt =====
-- What holds of the threads, the list and the connections of a server in whatever order its steps come.
use gologincase.Common.{
  ℕ, ◌≡◌, ◌≢◌, ◌⊎◌, Bool, true, false, Option, none, some, Buffer, is_some, Table, find,
}
use gologincase.Provider.{Cookies}
use gologincase.Dispatcher.{Handler, dispatch}
use gologincase.Tcp.{Connection}
use gologincase.Tcp.Server.{State}
use gologincase.Tcp.Server.Interleaving.{Pc, created, running, Thread, System, fresh}

-- The number of a thread's client.
abbrev pub cid_of : Option Thread → Option ℕ
cid_of none = none
cid_of (some t) = some t.cid

abbrev pub is_entered : Pc → Bool
is_entered created = false
is_entered _ = true

-- Whether a thread has entered its client into the list.
abbrev pub entered : Option Thread → Bool
entered none = false
entered (some t) = is_entered t.pc

-- The system gives a new client a number that neither a thread nor the list has.
abbrev pub Unused {ℓ} : {A : Type ℓ} → System A → ℕ → Type 0
Unused s n = ((o : ℕ) → cid_of (s.thread o) ≢ some n) × (find n s.state.client_list ≡ none)

-- The tables of a server: its list of clients and its connections.
abbrev pub tables {ℓ} : {A : Type ℓ} → State A → Table ℕ × Table Connection
tables s = (s.client_list, s.objects)

-- No packet makes a handler change the tables.
abbrev pub KeepsTables {ℓ} : {A : Type ℓ} → (Buffer → ℕ) → Table (Handler (State A)) → Type ℓ
KeepsTables {A} hash handlers =
    (cmd : Buffer) (cookies : Cookies) (input out : Buffer) (s : State A)
    → tables (dispatch hash handlers cmd cookies input out s).0.state ≡ tables s

-- A connection is in the store.
abbrev pub stores : Table Connection → ℕ → Bool
stores objects o = is_some (find o objects)

-- A number in the list is that of the thread that serves the connection listed, or of one that has ended
-- since `stop` was called; a thread that has entered its client finds it there, and the number of one
-- that has not is free; no two threads have the same number; each thread has its connection, each entry
-- of the list has one, and each connection has a thread or is listed.
pub record Inv {ℓ} {A : Type ℓ} (s : System A) : Type 0 where
  pub live :
      (n o : ℕ)
      → find n s.state.client_list ≡ some o
      → ((cid_of (s.thread o) ≡ some n) × (entered (s.thread o) ≡ true))
        ⊎ ((s.thread o ≡ none) × (s.phase ≢ running))
  pub listed :
      (n o : ℕ)
      → cid_of (s.thread o) ≡ some n
      → entered (s.thread o) ≡ true
      → find n s.state.client_list ≡ some o
  pub unlisted :
      (n o : ℕ)
      → cid_of (s.thread o) ≡ some n
      → entered (s.thread o) ≡ false
      → find n s.state.client_list ≡ none
  pub apart : (n o p : ℕ) → cid_of (s.thread o) ≡ some n → cid_of (s.thread p) ≡ some n → o ≡ p
  pub stored : (o : ℕ) → is_some (s.thread o) ≡ true → stores s.state.objects o ≡ true
  pub held : (n o : ℕ) → find n s.state.client_list ≡ some o → stores s.state.objects o ≡ true
  pub owned :
      (o : ℕ)
      → stores s.state.objects o ≡ true
      → (is_some (s.thread o) ≡ true) ⊎ ((n : ℕ) × (find n s.state.client_list ≡ some o))

pub Inv-fresh {ℓ} : {A : Type ℓ} (socket : ℕ) (a : A) → Inv (fresh socket a)
unfolding find
Inv-fresh socket a = record {
  live = λ n o h. cc;
  listed = λ n o h e. cc;
  unlisted = λ n o h e. cc;
  apart = λ n o p h k. cc;
  stored = λ o h. cc;
  held = λ n o h. cc;
  owned = λ o h. cc;
}
