-- ===== src/Provider.antt =====
-- src/auth/provider: the registered clients. The mutex makes each call one step. The random engine
-- of `add_client` is the parameter `dist`: its `i`-th draw is `dist i`. The logger is not modelled.
pub mod Invariant
pub mod History
use gologincase.Common.{
  ℕ, zero, suc, Bool, true, false, not, ◌||◌, List, [], ◌∷◌, ◌++◌, none, some, Buffer, str_eq,
  Table, find, emplace, erase, values, keep, if◌then◌else◌,
}

pub data ClientStatus : Type 0 where
  added removed accepted rejected not_found : ClientStatus

-- `_a == _b` of the enumeration.
abbrev pub is_accepted : ClientStatus → Bool
is_accepted accepted = true
is_accepted _ = false

abbrev pub is_removed : ClientStatus → Bool
is_removed removed = true
is_removed _ = false

abbrev pub status_eq : ClientStatus → ClientStatus → Bool
status_eq added added = true
status_eq removed removed = true
status_eq accepted accepted = true
status_eq rejected rejected = true
status_eq not_found not_found = true
status_eq _ _ = false

-- `core::types::client_cookies_t`.
pub record Cookies : Type 0 where
  pub server_client_id : ℕ

pub record AuthClient : Type 0 where
  pub cookie : Cookies
  pub id : ℕ
  pub session : Buffer
  pub login : Buffer
  pub status : ClientStatus

pub record Provider : Type 0 where
  pub client_login : Buffer
  pub client_pass : Buffer
  pub clients : Table AuthClient

-- The constructor.
unfoldable pub create : Buffer → Buffer → Provider
create login pass = record { client_login = login; client_pass = pass; clients = [] }

unfoldable pub get_clients : Provider → ClientStatus → List AuthClient
get_clients p status = keep (λ c. status_eq c.status status) (values p.clients)

-- The session is not read.
unfoldable pub status_client : Provider → ℕ → Buffer → ClientStatus
status_client p id session = elim (find id p.clients) [ some c ↦ c.status | none ↦ not_found ]

-- `std::generate_n` of `n` draws, from the `i`-th on.
unfoldable pub generate : (ℕ → ℕ) → ℕ → ℕ → Buffer
generate dist zero i = []
generate dist (suc n) i = dist i ∷ generate dist n (suc i)

-- `_session` is an argument by reference: it is appended to, and handed back.
unfoldable pub add_client :
    Provider → (ℕ → ℕ) → ℕ → Cookies → Buffer → Buffer → Buffer → ClientStatus × Provider × Buffer
add_client p dist id cookies login pass session =
    if not (str_eq login p.client_login) || not (str_eq pass p.client_pass)
    then (rejected, p, session)
    else elim (find id p.clients) [
      | none ↦
          (let drawn = session ++ generate dist 32 0 in
            let client : AuthClient = record {
              cookie = cookies;
              id = id;
              session = drawn;
              login = p.client_login;
              status = accepted;
            } in
            (accepted, record p { clients = emplace id client p.clients }, drawn))
      | some c ↦ (removed, p, session)
    ]

unfoldable pub rem_client : Provider → ℕ → Buffer → ClientStatus × Provider
rem_client p id session = elim (find id p.clients) [
  | some c ↦ (removed, record p { clients = erase id p.clients })
  | none ↦ (not_found, p)
]

-- The calls that change the provider, as the handlers make them: `add_client` gets an empty session
-- and an engine of its own.
pub data Call : Type 0 where
  add : (dist : ℕ → ℕ) (id : ℕ) (cookies : Cookies) (login pass : Buffer) → Call
  rem : (id : ℕ) (session : Buffer) → Call

unfoldable pub step : Provider → Call → Provider
step p (add dist id cookies login pass) = (add_client p dist id cookies login pass []).1
step p (rem id session) = (rem_client p id session).1

unfoldable pub run : Provider → List Call → Provider
run p [] = p
run p (c ∷ cs) = run (step p c) cs
