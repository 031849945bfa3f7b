-- ===== src/Gui/MessageFlow.antt =====
-- A message from the window of one client to the window of another.
use gologincase.Messages.Json.{Json}
use gologincase.Messages.Commands as Cmd
use gologincase.Messages.Client
use gologincase.Messages.Client.{client_msg_response_message}
use gologincase.Messages.Server.{server_msg_request_message, server_msg_response_message}
