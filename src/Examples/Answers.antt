-- ===== src/Examples/Answers.antt =====
-- A ping of a registered client, and its answer.
use gologincase.Common.{
  ◌<◌, ◌^◌, ◌≡◌, refl, sym, ap, ◌∙◌, subst, false, [], ◌∷◌, ◌++◌, some, Buffer, codes, length, take,
  replicate, arith, str_eq, le_bytes,
}
use gologincase.Packet.{create_packet, write_at, cmd_of}
use gologincase.Packet.Stream.{stream}
use gologincase.Messages.Json.{to, from, get_uint, get_text, member}
use gologincase.Messages.Commands as Cmd
use gologincase.Messages.Client
use gologincase.Messages.Client.{client_ping_request_message}
use gologincase.Messages.Server
use gologincase.Messages.Server.{server_auth_response_message}
use gologincase.Tcp.Client.{thread_loop}
use gologincase.Tcp.Client.Stream.{rounds_of}
use gologincase.Tcp.Server.{packet_handler}
use gologincase.Tcp.Server.Replies.{socket_of, packet_to}
use gologincase.Chat.Commands.{create_dispatcher_serves}
use gologincase.Chat.Answers.{pinged}
use gologincase.Gui.Replies.{perform, command}
use gologincase.Gui.Answers.{pings, reply, after, answer_text, ServesAll, question_answered}
use gologincase.Examples.Codec.{codec, codec_laws, is_ascii}
use gologincase.Examples.Data.{accepts, engine, hash, hash-NoCollision, world, world-Inv}
use gologincase.Examples.Messages.{registered}
use gologincase.Examples.Streams.{hash-apart, handlers, window, served}

abbrev ping : Client.PingRequest
ping = record { id = 1; command = Cmd.ping; session = [] }

abbrev question : Buffer
question =
    3 ∷ 2 ∷ 0 ∷ 1 ∷ codes "id"
    ++ (7 ∷ 1 ∷ 4 ∷ codes "command" ++ Cmd.ping)
    ++ (7 ∷ 1 ∷ 0 ∷ codes "session")

abbrev header : Buffer
header = take 32 (create_packet Cmd.ping question)

from_question : from codec question ≡ some ping
unfolding from get_uint get_text member str_eq
from_question = refl

serves : ServesAll codec hash served
serves =
    let all = create_dispatcher_serves codec accepts engine hash hash-NoCollision in
    (all.2, all.3, all.5)

abbrev answer : Server.AuthResponse
answer = record {
  id = 1;
  command = Cmd.ping_reply;
  status = codes "ok";
  session = [];
  message = [];
}

pinged-ping : pinged world ping ≡ answer
unfolding str_eq
pinged-ping = rw registered refl

cmd_of-header : cmd_of header ≡ some Cmd.ping
unfolding cmd_of create_packet write_at le_bytes
cmd_of-header = refl

abbrev answer_input : Buffer
answer_input =
    5 ∷ 2 ∷ 0 ∷ 1 ∷ codes "id"
    ++ (7 ∷ 1 ∷ 10 ∷ codes "command" ++ Cmd.ping_reply)
    ++ (6 ∷ 1 ∷ 2 ∷ codes "status" ++ codes "ok")
    ++ (7 ∷ 1 ∷ 0 ∷ codes "session")
    ++ (7 ∷ 1 ∷ 0 ∷ codes "message")

to_answer : to codec answer ≡ some answer_input
unfolding to
to_answer = refl

answer_short : (b : Buffer) → answer_text codec (pings ping) world ≡ some b → length b < 2 ^ 32
answer_short b e =
    let same : answer_input ≡ b = cc (sym to_answer ∙ ap (λ a. to codec a) (sym pinged-ping) ∙ e) in
    subst (λ (x : Buffer). length x < 2 ^ 32) same (omega arith)

question_answered_example :
    let q = pings ping in
    (b : Buffer) × (packet_handler accepts hash served 7 header question 0 world
      ≡ some (record (after q world) {
        trace = world.trace ++ packet_to (socket_of world 0) (command (reply q world)) b;
      }))
    × (thread_loop hash handlers.0 5
          (rounds_of (replicate 32 0 ∷ []) (stream ((command (reply q world), b) ∷ [])))
          window
        ≡ some (perform (record { server_client_id = 5 }) (reply q world) window, false))
question_answered_example =
    question_answered codec is_ascii codec_laws accepts hash served serves world world-Inv
      hash-apart handlers.0 handlers.1 7 header question 0 (pings ping) 5 (replicate 32 0) window
      cmd_of-header from_question (omega arith) refl answer_short
