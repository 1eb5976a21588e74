-- ===== src/Tools/Sessions/Heard.antt =====
-- What the analyser finds in the packets of `tcp_session` (tools/make_pcap_fixture.py), direction by
-- direction.
use wireline.Base.{
  eqb, All, Option, none, ℕ, ◌≡◌, refl, ap, ◌∙◌, sym, some, List, [], ◌∷◌, ◌++◌, map, append_assoc,
  append-nil, length, arith,
}
use wireline.Base.Bytes.{Bytes}
use wireline.Base.Text.{Text, codes}
use wireline.Errors.{Result, ok, raise, bind-eq-ok, ok-injective}
use wireline.Framing.Chunks.{concat}
use wireline.Sniff.Pcap.{Floats, Packet}
use wireline.Sniff.Pcap.Writing.{written}
use wireline.Sniff.Rows.{ip_str, Row, tcp_flags, try_parse_wireline}
use wireline.Sniff.Dissect.{dissect_packet, dissect_all, add_row, linktype_ethernet}
use wireline.Sniff.Flows.{flow_key}
use wireline.Sniff.Flows.Directions.{payloads_of}
use wireline.Tools.Packets.{tcp, ipv4, ethernet, fixed}
use wireline.Tools.Packets.Dissected.{addressed, dissect_packet-tcp}
use wireline.Tools.Sessions.{
  Way, to_server, to_client, Recording, Call, c2s, s2c, send_on, play, client_mac, server_mac,
  client_ip, server_ip, client_port, server_port,
}

abbrev pub key_of : Way → Text
key_of to_server = codes "10.0.0.10:51234 -> 10.0.0.20:9000"
key_of to_client = codes "10.0.0.20:9000 -> 10.0.0.10:51234"

-- The bytes of one call in a direction
abbrev pub said : Way → Way → Bytes → Bytes
said to_server to_server raw = raw
said to_server to_client raw = []
said to_client to_server raw = []
said to_client to_client raw = raw

-- The bytes of a payload that was computed
abbrev pub value : Result Bytes → Bytes
value (ok raw) = raw
value (raise e) = []

-- All bytes of some calls in a direction
abbrev pub spoken : Way → List Call → Bytes
spoken way [] = []
spoken way (call ∷ calls) = said way call.way (value call.payload) ++ spoken way calls

abbrev pub IsComputed : Call → Type 0
IsComputed call = (raw : Bytes) × (call.payload ≡ ok raw)

concat-append : (xs ys : List Bytes) → concat (xs ++ ys) ≡ concat xs ++ concat ys
unfolding concat
concat-append [] ys = refl
concat-append (x ∷ xs) ys =
    ap (λ l. x ++ l) (concat-append xs ys) ∙ sym (append_assoc x (concat xs) (concat ys))

map-append : {A B : Type 0} (f : A → B) (xs ys : List A) → map f (xs ++ ys) ≡ map f xs ++ map f ys
map-append f [] ys = refl
map-append f (x ∷ xs) ys = ap (λ l. f x ∷ l) (map-append f xs ys)

module _ {T : Type 0} where
  payloads_of-append :
      (key : Text) (xs ys : List (Row T))
      → payloads_of key (xs ++ ys) ≡ payloads_of key xs ++ payloads_of key ys
  unfolding payloads_of
  payloads_of-append key [] ys = refl
  payloads_of-append key (x ∷ xs) ys = ground (arith, payloads_of-append key xs ys)

  add_row-append :
      (r : Option (Row T)) (xs ys : List (Row T)) → add_row r (xs ++ ys) ≡ add_row r xs ++ ys
  unfolding add_row
  add_row-append none xs ys = refl
  add_row-append (some row) xs ys = refl

  dissect_all-append :
      (xs ys : List (ℕ × Packet T)) → dissect_all (xs ++ ys) ≡ dissect_all xs ++ dissect_all ys
  unfolding dissect_all
  dissect_all-append [] ys = refl
  dissect_all-append ((linktype, packet) ∷ xs) ys =
      ap (add_row (dissect_packet linktype packet)) (dissect_all-append xs ys)
      ∙ add_row-append (dissect_packet linktype packet) (dissect_all xs) (dissect_all ys)

  -- The row of a segment from the client, and of one from the server
  abbrev row_of : Way → T → ℕ → Bytes → Row T
  row_of to_server ts flags payload =
      record (addressed ts client_mac server_mac client_ip server_ip) {
        l4_proto = codes "TCP";
        l4_sport = client_port;
        l4_dport = server_port;
        l4_flags = tcp_flags flags;
        payload_len = length payload;
        payload = payload;
        l7 = try_parse_wireline payload;
      }
  row_of to_client ts flags payload =
      record (addressed ts server_mac client_mac server_ip client_ip) {
        l4_proto = codes "TCP";
        l4_sport = server_port;
        l4_dport = client_port;
        l4_flags = tcp_flags flags;
        payload_len = length payload;
        payload = payload;
        l7 = try_parse_wireline payload;
      }

  row_of-heard :
      (way way' : Way) (ts : T) (flags : ℕ) (payload : Bytes)
      → concat (payloads_of (key_of way) (row_of way' ts flags payload ∷ []))
        ≡ said way way' payload
  unfolding payloads_of concat flow_key fixed eqb ip_str
  row_of-heard to_server to_server ts flags [] = refl
  row_of-heard to_server to_server ts flags (b ∷ bs) = append-nil (b ∷ bs)
  row_of-heard to_server to_client ts flags [] = refl
  row_of-heard to_server to_client ts flags (b ∷ bs) = refl
  row_of-heard to_client to_server ts flags [] = refl
  row_of-heard to_client to_server ts flags (b ∷ bs) = refl
  row_of-heard to_client to_client ts flags [] = refl
  row_of-heard to_client to_client ts flags (b ∷ bs) = append-nil (b ∷ bs)

module _ {T : Type 0} (floats : Floats T) where
  -- The bytes that the analyser finds in a direction of some packets that were written to a file
  abbrev pub heard : Way → List (T × Bytes) → Bytes
  heard way packets =
      concat
        (payloads_of (key_of way) (dissect_all (map (written floats linktype_ethernet) packets)))

  heard_snoc :
      (way way' : Way) (packets : List (T × Bytes)) (p : T × Bytes) (ts : T) (flags : ℕ)
      (payload : Bytes)
      → dissect_packet linktype_ethernet (written floats linktype_ethernet p).1
        ≡ some (row_of way' ts flags payload)
      → heard way (packets ++ p ∷ []) ≡ heard way packets ++ said way way' payload
  unfolding dissect_all add_row
  heard_snoc way way' packets p ts flags payload e =
      let rows = dissect_all (map (written floats linktype_ethernet) packets) in
      ap (λ l. concat (payloads_of (key_of way) (dissect_all l)))
        (map-append (written floats linktype_ethernet) packets (p ∷ []))
      ∙ ap (λ l. concat (payloads_of (key_of way) l))
          (dissect_all-append (map (written floats linktype_ethernet) packets)
              (written floats linktype_ethernet p ∷ [])
            ∙ ap (λ r. rows ++ add_row r []) e)
      ∙ ap concat (payloads_of-append (key_of way) rows (row_of way' ts flags payload ∷ []))
      ∙ concat-append (payloads_of (key_of way) rows) _
      ∙ ap (λ l. concat (payloads_of (key_of way) rows) ++ l)
          (row_of-heard way way' ts flags payload)

  send_on-heard :
      (tick : T → T) (way way' : Way) (flags : ℕ) (payload : Bytes) (r r' : Recording T)
      → send_on tick way' flags payload r ≡ ok r'
      → heard way r'.packets ≡ heard way r.packets ++ said way way' payload
  unfolding send_on c2s s2c
  send_on-heard tick way to_server flags payload r r' e =
      let (segment, t, e1) =
        bind-eq-ok (tcp client_port server_port r.c_seq r.s_seq flags payload) _ e in
      let (packet, p, e2) = bind-eq-ok (ipv4 client_ip server_ip 6 segment r.ident) _ e1 in
      ap (λ q. heard way q.packets) (sym (ok-injective e2))
      ∙ heard_snoc way to_server r.packets (r.ts, ethernet client_mac server_mac packet) _ flags
          payload
          (dissect_packet-tcp client_mac server_mac client_ip server_ip payload segment packet _ _
            client_port server_port r.c_seq r.s_seq flags r.ident t p)
  send_on-heard tick way to_client flags payload r r' e =
      let (segment, t, e1) =
        bind-eq-ok (tcp server_port client_port r.s_seq r.c_seq flags payload) _ e in
      let (packet, p, e2) = bind-eq-ok (ipv4 server_ip client_ip 6 segment r.ident) _ e1 in
      ap (λ q. heard way q.packets) (sym (ok-injective e2))
      ∙ heard_snoc way to_client r.packets (r.ts, ethernet server_mac client_mac packet) _ flags
          payload
          (dissect_packet-tcp server_mac client_mac server_ip client_ip payload segment packet _ _
            server_port client_port r.s_seq r.c_seq flags r.ident t p)

  pub play-heard :
      (tick : T → T) (calls : List Call) (r r' : Recording T)
      → play tick calls r ≡ ok r'
      → All IsComputed calls
        × ((way : Way) → heard way r'.packets ≡ heard way r.packets ++ spoken way calls)
  unfolding play
  play-heard tick [] r r' e = (
    tt,
    λ way.
        ap (λ (q : Recording T). heard way q.packets) (sym (ok-injective e))
        ∙ sym (append-nil (heard way r.packets)),
  )
  play-heard tick (call ∷ calls) r r' e =
      let (raw, q, e1) = bind-eq-ok call.payload _ e in
      let (r'', q', e2) = bind-eq-ok (send_on tick call.way call.flags raw r) _ e1 in
      let (computed, h) = play-heard tick calls r'' r' e2 in
      (
        ((raw, q), computed),
        λ way.
            h way
            ∙ ap (λ l. l ++ spoken way calls)
                (send_on-heard tick way call.way call.flags raw r r'' q'
                  ∙ ap (λ v. heard way r.packets ++ said way call.way (value v)) (sym q))
            ∙ append_assoc (heard way r.packets) (said way call.way (value call.payload))
                (spoken way calls),
      )

  pub heard_nil : (way : Way) → heard way [] ≡ []
  unfolding payloads_of concat dissect_all
  heard_nil way = refl
