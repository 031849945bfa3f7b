-- ===== src/Examples/Packets.antt =====
-- Packets and messages.
use gologincase.Common.{
  ◌+◌, ◌%◌, ◌^◌, ◌≤◌, ◌<◌, ◌≡◌, ◌≢◌, ◌↔◌, ◌⊎◌, [], ◌∷◌, ◌++◌, some, Buffer, codes, take, drop,
  length, arith,
}
use gologincase.Packet.{create_packet, size_of, cmd_of}
use gologincase.Packet.Header.{NoNul, create_packet_reads_back, create_packet_refusal}
use gologincase.Messages.Json.{from}
use gologincase.Messages.Client.{client_msg_request_message}
use gologincase.Messages.RoundTrip.{from-to, client_msg_request-IsLawful}
use gologincase.Messages.Commands as Cmd
use gologincase.Examples.Codec.{codec, codec_laws, is_ascii}
use gologincase.Examples.Data.{msg_request, msg_input, to_msg_request}

msg-NoNul : NoNul Cmd.msg
msg-NoNul = ground arith

abbrev packed_msg : Buffer
packed_msg = create_packet Cmd.msg (codes "hi")

create_packet_reads_back_example :
    (size_of (take 32 (packed_msg ++ 9 ∷ [])) ≡ 2 % 2 ^ 32)
    × (cmd_of (take 32 (packed_msg ++ 9 ∷ [])) ≡ some Cmd.msg)
    × (take 2 (drop 32 (packed_msg ++ 9 ∷ [])) ≡ codes "hi")
    × (drop 2 (drop 32 (packed_msg ++ 9 ∷ [])) ≡ 9 ∷ [])
create_packet_reads_back_example =
    create_packet_reads_back Cmd.msg (codes "hi") (ground arith) (omega arith) msg-NoNul (9 ∷ [])

create_packet_refusal_example :
    ((packed_msg ≡ []) ↔ ((codes "hi" ≡ []) ⊎ (16 ≤ length Cmd.msg)))
    × (codes "hi" ≢ [] → length Cmd.msg < 16 → length packed_msg ≡ 32 + length (codes "hi"))
create_packet_refusal_example = create_packet_refusal Cmd.msg (codes "hi")

from-to_example : from codec msg_input ≡ some msg_request
from-to_example =
    from-to codec is_ascii codec_laws client_msg_request-IsLawful msg_request msg_input
      (ground arith) to_msg_request
