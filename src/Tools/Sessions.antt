-- ===== src/Tools/Sessions.antt =====
-- tools/make_pcap_fixture.py: the two sessions whose packets the tool writes to capture files.
pub mod Heard
pub mod Captured
mod Tests
use wireline.Base.{
  ℕ, ◌+◌, ◌/◌, ◌%◌, none, List, [], ◌∷◌, ◌++◌, ◌==◌, if◌then◌else◌, ltb, length, take, drop,
}
use wireline.Base.Bytes.{Bytes}
use wireline.Base.Text.{Text, codes}
use wireline.Errors.{Result, ok, raise, ◌>>=◌, ◌>>◌}
use wireline.Codec.{Crypto, Frame, hello, hello_ack, data_msg, bye, ping, pong, encode}
use wireline.Messages.{Json, encode_hello, encode_hello_ack}
use wireline.Tools.Packets.{ethernet, ipv4, tcp, udp}

abbrev pub secret : Bytes
secret = codes "fixture-secret"

abbrev pub client_mac : Bytes
client_mac = 2 ∷ 0 ∷ 0 ∷ 0 ∷ 0 ∷ 1 ∷ []

abbrev pub server_mac : Bytes
server_mac = 2 ∷ 0 ∷ 0 ∷ 0 ∷ 0 ∷ 2 ∷ []

-- The addresses as `ip_bytes` makes them of their texts
abbrev pub client_ip : Bytes
client_ip = 10 ∷ 0 ∷ 0 ∷ 10 ∷ []

abbrev pub server_ip : Bytes
server_ip = 10 ∷ 0 ∷ 0 ∷ 20 ∷ []

abbrev pub client_port : ℕ
client_port = 51234

abbrev pub server_port : ℕ
server_port = 9000

-- What the closures `c2s` and `s2c` of `tcp_session` share.
pub record Recording (T : Type 0) : Type 0 where
  pub packets : List (T × Bytes)
  pub ts : T
  pub ident : ℕ
  pub c_seq : ℕ
  pub s_seq : ℕ

-- `max(len(payload), 1 if flags & 0x02 else 0)`
unfoldable pub advance : ℕ → Bytes → ℕ
advance flags payload =
    let syn = if flags / 2 % 2 == 1 then 1 else 0 in
    if ltb (length payload) syn then syn else length payload

-- The variables as `tcp_session` begins
abbrev pub start : {T : Type 0} → T → Recording T
start ts = record { packets = []; ts = ts; ident = 1; c_seq = 1000; s_seq = 5000 }

-- Which of the two closures is called
pub data Way : Type 0 where
  to_server to_client : Way

-- A call: which closure, its flags and its payload, whose computation may raise.
pub record Call : Type 0 where
  pub way : Way
  pub flags : ℕ
  pub payload : Result Bytes

-- `ts += 0.0005`, an addition of floats, is the parameter `tick`.
module _ {T : Type 0} (tick : T → T) where
  unfoldable pub c2s : ℕ → Bytes → Recording T → Result (Recording T)
  unfolding ethernet advance
  c2s flags payload r = do
    segment ← tcp client_port server_port r.c_seq r.s_seq flags payload
    packet ← ipv4 client_ip server_ip 6 segment r.ident
    ok (record r {
      packets = r.packets ++ (r.ts, ethernet client_mac server_mac packet) ∷ [];
      ts = tick r.ts;
      ident = r.ident + 1;
      c_seq = r.c_seq + advance flags payload;
    })

  unfoldable pub s2c : ℕ → Bytes → Recording T → Result (Recording T)
  unfolding ethernet advance
  s2c flags payload r = do
    segment ← tcp server_port client_port r.s_seq r.c_seq flags payload
    packet ← ipv4 server_ip client_ip 6 segment r.ident
    ok (record r {
      packets = r.packets ++ (r.ts, ethernet server_mac client_mac packet) ∷ [];
      ts = tick r.ts;
      ident = r.ident + 1;
      s_seq = r.s_seq + advance flags payload;
    })

  unfoldable pub send_on : Way → ℕ → Bytes → Recording T → Result (Recording T)
  unfolding c2s s2c
  send_on to_server flags payload r = c2s flags payload r
  send_on to_client flags payload r = s2c flags payload r

  -- The calls one after the other
  unfoldable pub play : List Call → Recording T → Result (Recording T)
  unfolding send_on
  play [] r = ok r
  play (call ∷ calls) r = do
    raw ← call.payload
    r' ← send_on call.way call.flags raw r
    play calls r'

module _ (crypto : Crypto) (json : Json) (nonce nonce' : Text) where
  abbrev pub hello_frame : Frame
  hello_frame = record {
    msg_type = hello;
    seq = 0;
    payload = encode_hello json (codes "capture") none nonce;
    flags = 0;
  }

  abbrev pub welcome_frame : Frame
  welcome_frame = record {
    msg_type = hello_ack;
    seq = 0;
    payload = encode_hello_ack json (codes "cap01") none nonce';
    flags = 0;
  }

  abbrev pub data_frame : Frame
  data_frame = record {
    msg_type = data_msg;
    seq = 1;
    payload = codes "payload that crosses a segment boundary";
    flags = 0;
  }

  abbrev pub bye_frame : Frame
  bye_frame = record { msg_type = bye; seq = 2; payload = []; flags = 0 }

  -- A part of `data`
  unfoldable pub part : (Bytes → Bytes) → Result Bytes
  part f = do raw ← encode crypto data_frame secret; ok (f raw)

  -- The calls of `tcp_session`
  unfoldable pub conversation : List Call
  unfolding part
  conversation =
      record { way = to_server; flags = 0x02; payload = ok [] }
      ∷ record { way = to_client; flags = 0x12; payload = ok [] }
      ∷ record { way = to_server; flags = 0x10; payload = ok [] }
      ∷ record { way = to_server; flags = 0x18; payload = encode crypto hello_frame secret }
      ∷ record { way = to_client; flags = 0x18; payload = encode crypto welcome_frame secret }
      ∷ record { way = to_server; flags = 0x18; payload = part (take 30) }
      ∷ record { way = to_server; flags = 0x18; payload = part (drop 30) }
      ∷ record { way = to_client; flags = 0x18; payload = encode crypto data_frame secret }
      ∷ record { way = to_server; flags = 0x18; payload = encode crypto bye_frame secret }
      ∷ record { way = to_client; flags = 0x11; payload = ok [] }
      ∷ record { way = to_server; flags = 0x10; payload = ok [] }
      ∷ []

  unfoldable pub tcp_session : {T : Type 0} → (T → T) → T → Result (List (T × Bytes))
  unfolding play conversation
  tcp_session tick ts = do r ← play tick conversation (start ts); ok r.packets

-- `later` is `ts + 0.001`.
unfoldable pub udp_session : {T : Type 0} → Crypto → T → T → Result (List (T × Bytes))
unfolding ethernet
udp_session crypto ts later = do
  request ←
      encode crypto (record { msg_type = ping; seq = 0; payload = codes "udp probe"; flags = 1 })
        secret
  reply ←
      encode crypto (record { msg_type = pong; seq = 0; payload = codes "udp probe"; flags = 0 })
        secret
  asked ← udp 51235 9001 request
  question ← ipv4 client_ip server_ip 17 asked 100
  answered ← udp 9001 51235 reply
  answer ← ipv4 server_ip client_ip 17 answered 101
  ok (
      (ts, ethernet client_mac server_mac question)
      ∷ (later, ethernet server_mac client_mac answer)
      ∷ [])
