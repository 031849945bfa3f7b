-- ===== src/Dispatcher.antt =====
-- src/core/dispatcher.hpp and src/tcp/core/dispatcher.hpp. The handlers work on a state `S` of the
-- program that owns them. `std::hash<std::string_view>` is the parameter `hash`. The logger is not
-- modelled: what `catch` writes to it is no part of the result.
pub mod Routes
use gologincase.Common.{
  ℕ, Bool, true, false, not, List, [], ◌∷◌, Option, none, some, Buffer, Table, find, emplace, ◌>>=◌,
}
use gologincase.Messages.Json.{Json, Message, to, from}
use gologincase.Provider.{Cookies}

-- How a handler ends: the command and the output buffer, which it has by reference, the state that
-- it leaves, and whether it ended by an exception. What it wrote before the exception stays.
pub record Outcome {ℓ} (S : Type ℓ) : Type ℓ where
  pub cmd : Buffer
  pub out : Buffer
  pub state : S
  pub raised : Bool

-- `handler_type`: command, cookies, input and output.
abbrev pub Handler {ℓ} : Type ℓ → Type ℓ
Handler S = Buffer → Cookies → Buffer → Buffer → S → Outcome S

module _ {ℓ} {S : Type ℓ} (j : Json) where
  -- The end of `wrapper`: the command of the response goes out before the response is packed.
  unfoldable pub pack_response :
      {Resp : Type 0} ⦃r : Message Resp⦄ → Buffer → Buffer → Resp → S → Bool → Outcome S
  pack_response cmd out resp s true = record { cmd = cmd; out = out; state = s; raised = true }
  pack_response ⦃r⦄ cmd out resp s false = elim (to j resp) [
    | none ↦ record { cmd = r.command resp; out = out; state = s; raised = true }
    | some b ↦ record { cmd = r.command resp; out = b; state = s; raised = false }
  ]

  -- `wrapper` of `handle_` for a function of three arguments. The function returns its response,
  -- the state it leaves, and whether it threw.
  unfoldable pub wrap_request :
      {Req Resp : Type 0} ⦃q : Message Req⦄ ⦃r : Message Resp⦄
      → (Cookies → Req → Resp → S → Resp × S × Bool)
      → Handler S
  wrap_request {Req} ⦃r = r⦄ f cmd cookies input out s = elim (from j {M = Req} input) [
    | none ↦ record { cmd = cmd; out = out; state = s; raised = true }
    | some req ↦
        let (resp, s', raised) = f cookies req r.blank s in pack_response cmd out resp s' raised
  ]

  -- `wrapper` for a function of two arguments: there is no response.
  unfoldable pub wrap_notice :
      {Req : Type 0} ⦃q : Message Req⦄ → (Cookies → Req → S → S) → Handler S
  wrap_notice {Req} f cmd cookies input out s = elim (from j {M = Req} input) [
    | none ↦ record { cmd = cmd; out = out; state = s; raised = true }
    | some req ↦ record { cmd = cmd; out = out; state = f cookies req s; raised = false }
  ]

module _ {ℓ} {S : Type ℓ} (hash : Buffer → ℕ) where
  -- `handle`, `handle_`. `none`: `std::invalid_argument`, the hash is taken.
  unfoldable pub handle : Buffer → Handler S → Table (Handler S) → Option (Table (Handler S))
  handle cmd h handlers = elim (find (hash cmd) handlers) [
    | some g ↦ none
    | none ↦ some (emplace (hash cmd) h handlers)
  ]

  -- `dispatch`: the outcome, and what the call returns.
  unfoldable pub dispatch :
      Table (Handler S) → Buffer → Cookies → Buffer → Buffer → S → Outcome S × Bool
  dispatch handlers cmd cookies input out s = elim (find (hash cmd) handlers) [
    | some h ↦ (let r = h cmd cookies input out s in (r, not r.raised))
    | none ↦ (record { cmd = cmd; out = out; state = s; raised = false }, false)
  ]

  -- Registrations made one after another, as the two applications do.
  unfoldable pub handle_all :
      List (Buffer × Handler S) → Table (Handler S) → Option (Table (Handler S))
  handle_all [] handlers = some handlers
  handle_all ((cmd, h) ∷ rest) handlers = do more ← handle cmd h handlers; handle_all rest more
