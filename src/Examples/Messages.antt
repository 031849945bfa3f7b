-- ===== src/Examples/Messages.antt =====
-- A message that a client says to itself.
use gologincase.Common.{
  ◌≡◌, refl, true, [], ◌++◌, some, find, emplace, take, drop, replicate, str_eq,
}
use gologincase.Packet.{create_packet, size_of}
use gologincase.Messages.Commands as Cmd
use gologincase.Messages.Client.{client_msg_request_message}
use gologincase.Messages.Server.{server_msg_request_message}
use gologincase.Provider.{AuthClient, accepted, run, step, add_client, rem_client, create, generate}
use gologincase.Tcp.Errors.{wsa_none, no_error}
use gologincase.Tcp.Session as Session
use gologincase.Tcp.Session.{Answers, got}
use gologincase.Examples.Data.{cookies, login, world, msg_input}

abbrev reads : Answers
reads = record {
  header = got (take 32 (create_packet Cmd.msg msg_input ++ []));
  body = got (
      take (size_of (take 32 (create_packet Cmd.msg msg_input ++ [])))
        (drop 32 (create_packet Cmd.msg msg_input ++ [])));
  last_error = wsa_none;
  so_error = no_error;
  ioctl_done = true;
}

abbrev client : AuthClient
client = record {
  cookie = cookies;
  id = 1;
  session = replicate 32 97;
  login = login;
  status = accepted;
}

pub registered : find 1 world.app.provider.clients ≡ some client
unfolding run step rem_client find add_client str_eq create emplace generate
registered = refl
