-- ===== src/Tcp/Server.antt =====
-- `server` of src/tcp/server: the list of clients, what is sent to them, and the thread of a client.
-- Connections are shared objects: the thread and the list hold the number of an object in a store.
-- The application that the handlers work on is the type `A`.
pub mod Replies
pub mod Members
pub mod Interleaving
pub mod Stream
use gologincase.Common.{
  ℕ, Bool, true, false, List, [], ◌∷◌, ◌++◌, Option, none, some, Buffer, Table, find, emplace,
  erase, put, if◌then◌else◌, ◌>>=◌,
}
use gologincase.Packet.{cmd_of}
use gologincase.Provider.{Cookies}
use gologincase.Dispatcher.{Handler, dispatch}
use gologincase.Tcp.{Connection, Sys, ServerStatus, is_up, send}
use gologincase.Tcp.Session.{Answers, Received, create, destroy, recv}

pub record State {ℓ} (A : Type ℓ) : Type ℓ where
  pub app : A
  -- The connections, by the number of the object.
  pub objects : Table Connection
  -- `m_client_list`: from the client's number, which is its socket, to the object.
  pub client_list : Table ℕ
  -- The calls made on sockets, the first one first.
  pub trace : List Sys

-- `m_packet_handlers` and `server::handle`, generic in the handlers, which are never called.
unfoldable pub handle {ℓ} : {H : Type ℓ} → (Buffer → ℕ) → Buffer → H → Table H → Table H
handle hash cmd h handlers = elim (find (hash cmd) handlers) [
  | some g ↦ emplace (hash cmd) h handlers
  | none ↦ handlers
]

-- One round of the loop of `client_handler`: the status that its test reads, what the memory of the
-- header holds, and the answers to `recv`.
pub record Round : Type 0 where
  pub status : ServerStatus
  pub memory : Buffer
  pub answers : Answers

-- How the thread of a client stands: it waits for the next round, it left the loop because the
-- server is not up or because `recv` failed, or its behaviour is undefined.
pub data Ending : Type 0 where
  waiting stopped lost undefined : Ending

module _ {ℓ} {A : Type ℓ} (accepts : ℕ → Buffer → Bool) where
  -- `send` on an object of the store.
  unfoldable pub send_object : ℕ → Buffer → Buffer → State A → Bool × State A
  send_object object cmd buff s = elim (find object s.objects) [
    | some c ↦
        let (sent, calls) = send accepts c cmd buff in (sent, record s { trace = s.trace ++ calls })
    | none ↦ (false, s)
  ]

  unfoldable pub send_to : Cookies → Buffer → Buffer → State A → Bool × State A
  send_to cookies cmd buff s = elim (find cookies.server_client_id s.client_list) [
    | some object ↦ send_object object cmd buff s
    | none ↦ (false, s)
  ]

  module _ (hash : Buffer → ℕ) (handlers : Table (Handler (State A))) where
    -- `packet_handler`: the command and the output that the dispatch leaves are sent back, whatever
    -- it returns. `none`: the header's type has no terminator, and the program reads past it.
    unfoldable pub packet_handler : ℕ → Buffer → Buffer → ℕ → State A → Option (State A)
    packet_handler cid header buff object s = do
      cmd ← cmd_of header
      let r = (dispatch hash handlers cmd (record { server_client_id = cid }) buff [] s).0
      some (send_object object r.cmd r.out r.state).1

    -- What a round makes of what `recv` returned.
    unfoldable pub after_recv : Received → ℕ → ℕ → State A → Ending × State A
    after_recv got cid object s = elim got.ok [
      -- The entry goes, and with the thread the last owner of the object.
      | false ↦ (
        lost,
        record s {
          client_list = erase cid s.client_list;
          objects = erase object s.objects;
          trace = s.trace ++ destroy got.conn;
        },
      )
      | true ↦ elim (packet_handler cid got.header got.buff object s) [
        | none ↦ (undefined, s)
        | some next ↦ (waiting, next)
      ]
    ]

    -- A round on the connection with the number `object`: `waiting` if the loop goes on.
    unfoldable pub client_round : Round → ℕ → ℕ → State A → Ending × State A
    client_round r cid object s =
        if is_up r.status
        then elim (find object s.objects) [
          | none ↦ (undefined, s)
          | some c ↦
              (let got = recv c r.memory r.answers in
                after_recv got cid object (record s {
                  objects = put object got.conn s.objects;
                  trace = s.trace ++ got.calls;
                }))
        ]
        else (stopped, s)

    -- The loop of `client_handler`.
    unfoldable pub client_loop : List Round → ℕ → ℕ → State A → Ending × State A
    client_loop [] cid object s = (waiting, s)
    client_loop (r ∷ rounds) cid object s =
        let (ending, next) = client_round r cid object s in
        let rest = client_loop rounds cid object next in
        elim ending [ waiting ↦ rest | other ↦ (other, next) ]

    -- `client_handler`: the object is made under a number that is free, and entered into the list.
    unfoldable pub client_handler : ℕ → List Round → ℕ → State A → Ending × State A
    client_handler socket rounds object s = client_loop rounds socket object (record s {
      objects = put object (create socket) s.objects;
      client_list = emplace socket object s.client_list;
    })
