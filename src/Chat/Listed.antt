-- ===== src/Chat/Listed.antt =====
-- The list of clients of the server application, while its threads run in any order.
use gologincase.Common.{ℕ, ◌≡◌, ◌↔◌, refl, Bool, true, some, Buffer, Table, find}
use gologincase.Messages.Json.{Json}
use gologincase.Messages.Client.{
  client_hello_request_message, client_ping_request_message, client_auth_request_message,
  client_bye_request_message, client_msg_request_message, client_msg_response_message,
}
use gologincase.Messages.Server.{
  server_hello_response_message, server_auth_response_message, server_bye_response_message,
  server_msg_request_message, server_msg_response_message,
}
use gologincase.Dispatcher.{Handler}
use gologincase.Tcp.Server.Interleaving.{System, Reach, fresh, running}
use gologincase.Tcp.Server.Interleaving.Invariant.{tables, KeepsTables, Unused, cid_of, entered}
use gologincase.Tcp.Server.Interleaving.Steps.{send_object-tables}
use gologincase.Tcp.Server.Interleaving.Listed.{Reach-listed}
use gologincase.Chat.Keeping.{create_dispatcher-Keeps}
use gologincase.Chat.{World, App, create_dispatcher}

module _ (j : Json) (accepts : ℕ → Buffer → Bool) (engine : ℕ → ℕ → ℕ) where
  -- No packet makes the dispatcher of the server application change its tables.
  pub create_dispatcher-KeepsTables :
      (hash : Buffer → ℕ) (t : Table (Handler World))
      → create_dispatcher j accepts engine hash ≡ some t
      → KeepsTables hash t
  create_dispatcher-KeepsTables =
      create_dispatcher-Keeps (λ s. tables s) (λ a s. refl) send_object-tables j accepts engine

  -- Of the server application that has just been started, in whatever order the threads of its clients
  -- run and whatever they send: if the system gives a new client no number that a thread or the list
  -- still has, then as long as `stop` is not called the list of clients has under a number just the
  -- connection whose thread has that number and has entered it.
  pub app_listed :
      (hash : Buffer → ℕ) (t : Table (Handler World)) (socket : ℕ) (a : App) (s : System App)
      (n o : ℕ)
      → create_dispatcher j accepts engine hash ≡ some t
      → Reach accepts hash t Unused (fresh socket a) s
      → s.phase ≡ running
      → (find n s.state.client_list ≡ some o)
        ↔ ((cid_of (s.thread o) ≡ some n) × (entered (s.thread o) ≡ true))
  app_listed hash t socket a s n o made r up =
      Reach-listed accepts hash t (create_dispatcher-KeepsTables hash t made) socket a s n o r up
