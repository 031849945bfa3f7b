-- ===== src/Examples/Data.antt =====
-- A server with one client, and packets of that client.
use gologincase.Common.{
  ℕ, ◌≡◌, refl, Bool, true, List, [], ◌∷◌, ◌++◌, some, Buffer, All, codes, from_le, take, str_eq,
  le_bytes, arith, find, emplace,
}
use gologincase.Packet.{create_packet, cmd_of, write_at}
use gologincase.Messages.Json.{from, to, get_uint, get_text, member}
use gologincase.Messages.Commands as Cmd
use gologincase.Messages.Client
use gologincase.Messages.Client.{client_msg_request_message, client_auth_request_message}
use gologincase.Provider.{Cookies, Call, add, rem, create, run, step, add_client, rem_client}
use gologincase.Provider.Invariant.{Inv, IsFair, DrawsLetters, run-create-Inv}
use gologincase.Tcp.Session as Session
use gologincase.Chat.{World}
use gologincase.Chat.Commands.{NoCollision}
use gologincase.Examples.Codec.{codec, is_ascii}

abbrev pub login : Buffer
login = codes "user"

abbrev pub pass : Buffer
pass = codes "pass"

abbrev pub engine : ℕ → ℕ → ℕ
engine n i = 97

pub letters : (n : ℕ) → DrawsLetters (engine n)
letters n i = (omega arith, omega arith)

abbrev pub accepts : ℕ → Buffer → Bool
accepts socket packet = true

abbrev pub hash : Buffer → ℕ
hash s = from_le s

pub hash-NoCollision : NoCollision hash
unfolding from_le
hash-NoCollision = ground arith

abbrev pub cookies : Cookies
cookies = record { server_client_id = 7 }

-- A login, one more of the same number, and the logout of another number.
abbrev pub calls : List Call
calls = add (engine 0) 1 cookies login pass ∷ add (engine 1) 1 cookies login pass ∷ rem 2 [] ∷ []

pub calls-IsFair : All IsFair calls
calls-IsFair = (letters 0, (letters 1, (tt, tt)))

abbrev pub world : World
world = record {
  app = record { provider = run (create login pass) calls; engines = 1 };
  objects = (0, Session.create 7) ∷ [];
  client_list = (7, 0) ∷ [];
  trace = [];
}

pub world-Inv : Inv world.app.provider
world-Inv = run-create-Inv login pass calls calls-IsFair

pub world_login : is_ascii world.app.provider.client_login ≡ true
unfolding run step rem_client find add_client str_eq create emplace
world_login = refl

abbrev pub msg_request : Client.MsgRequest
msg_request = record { id = 1; command = Cmd.msg; body = codes "hi"; session = [] }

abbrev pub auth_request : Client.AuthRequest
auth_request = record { id = 2; command = Cmd.auth; login = login; password = pass }

-- The two requests as the client packs them.
abbrev pub msg_input : Buffer
msg_input =
    4 ∷ 2 ∷ 0 ∷ 1 ∷ codes "id"
    ++ (7 ∷ 1 ∷ 7 ∷ codes "command" ++ Cmd.msg)
    ++ (4 ∷ 1 ∷ 2 ∷ codes "body" ++ codes "hi")
    ++ (7 ∷ 1 ∷ 0 ∷ codes "session")

abbrev pub auth_input : Buffer
auth_input =
    4 ∷ 2 ∷ 0 ∷ 2 ∷ codes "id"
    ++ (7 ∷ 1 ∷ 5 ∷ codes "command" ++ Cmd.auth)
    ++ (5 ∷ 1 ∷ 4 ∷ codes "login" ++ login)
    ++ (8 ∷ 1 ∷ 4 ∷ codes "password" ++ pass)

pub to_msg_request : to codec msg_request ≡ some msg_input
unfolding to
to_msg_request = refl

pub to_auth_request : to codec auth_request ≡ some auth_input
unfolding to
to_auth_request = refl

pub from_msg_input : from codec msg_input ≡ some msg_request
unfolding from get_uint get_text member str_eq
from_msg_input = refl

pub from_auth_input : from codec auth_input ≡ some auth_request
unfolding from get_uint get_text member str_eq
from_auth_input = refl

-- The headers of the packets.
abbrev pub msg_header : Buffer
msg_header = take 32 (create_packet Cmd.msg msg_input)

abbrev pub auth_header : Buffer
auth_header = take 32 (create_packet Cmd.auth auth_input)

pub cmd_of-msg_header : cmd_of msg_header ≡ some Cmd.msg
unfolding cmd_of create_packet write_at le_bytes
cmd_of-msg_header = refl

pub cmd_of-auth_header : cmd_of auth_header ≡ some Cmd.auth
unfolding cmd_of create_packet write_at le_bytes
cmd_of-auth_header = refl
