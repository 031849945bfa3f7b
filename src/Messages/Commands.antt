-- ===== src/Messages/Commands.antt =====
-- The commands of src/messages/messages.hpp.
use gologincase.Common.{Buffer, codes}

abbrev pub hello : Buffer
hello = codes "hello"

abbrev pub hello_reply : Buffer
hello_reply = codes "hello"

abbrev pub auth : Buffer
auth = codes "login"

abbrev pub auth_reply : Buffer
auth_reply = codes "login"

abbrev pub msg : Buffer
msg = codes "message"

abbrev pub msg_reply : Buffer
msg_reply = codes "message_reply"

abbrev pub ping : Buffer
ping = codes "ping"

abbrev pub ping_reply : Buffer
ping_reply = codes "ping_reply"

abbrev pub bye : Buffer
bye = codes "logout"

abbrev pub bye_reply : Buffer
bye_reply = codes "logout"
