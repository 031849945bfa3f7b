-- ===== src/Gui/LoginFlow.antt =====
-- A login from the window of the client to the server's answer.
use gologincase.Messages.Json.{Json}
use gologincase.Messages.Commands as Cmd
use gologincase.Messages.Client
use gologincase.Messages.Server.{server_auth_response_message}
