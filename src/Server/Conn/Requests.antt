-- ===== src/Server/Conn/Requests.antt =====
-- What `handleConn` does with a header that a client marshalled.
use krelay.Prelude.{
  ℕ, ◌≡◌, refl, ap, ◌∙◌, ◌+◌, ◌<◌, Bool, true, false, List, [], ◌∷◌, ◌++◌, Option, none, some,
  Bytes, codes, length, arith, ◌==◌,
}
use krelay.Golib.Reader.{Reader}
use krelay.Golib.Reader.Laws.{available}
use krelay.Xnet.Addr.{protocol_tcp, protocol_udp, protocol_keepalive}
use krelay.Xnet.Header.{Header, marshal}
use krelay.Xnet.Header.RoundTrip.{from_reader-marshal}
use krelay.Xnet.Ack.{ack_code_ok, ack_code_unknown_protocol}
use krelay.Server.Conn.{
  DialError, ack_code_from_err, Action, dialed, wrote, proxied, closed, upstream_closed, Session,
  log, write_ack, after_dial, after_header, forward, serve, handle_conn, destination,
}

-- A header that its length field can hold.
abbrev pub Fits : Header → Type 0
Fits h = (length h.request_id ≡ 5) × (h.port < 65536) × (12 + length h.addr.bytes < 65536)

-- The protocols with a destination, and their networks.
pub data Network : ℕ → Bytes → Type 0 where
  over_tcp : Network protocol_tcp (codes "tcp")
  over_udp : Network protocol_udp (codes "udp")

-- A new connection whose client sent a header, and more behind it.
pub record Opened (h : Header) (rest : Bytes) (s : Session) : Type 0 where
  pub fits : Fits h
  pub new : s.actions ≡ []
  pub arrived : available s.reader ≡ marshal h ++ rest

pub gt-== : (a b : ℕ) → b < a → (a == b) ≡ false
gt-== a b h = ground arith

abbrev pub opens : Option DialError → Bool
opens none = true
opens (some e) = false

-- Whether a connection to the destination is open at the end that no proxy has, by whether one is open
-- before these actions.
abbrev pub left_open : (Bytes → Bytes → Option DialError) → Bool → List Action → Bool
left_open dial o [] = o
left_open dial o (dialed network to ∷ acts) = left_open dial (opens (dial network to)) acts
left_open dial o (wrote b ∷ acts) = left_open dial o acts
left_open dial o (proxied protocol id r ∷ acts) = left_open dial false acts
left_open dial o (closed ∷ acts) = left_open dial o acts
left_open dial o (upstream_closed ∷ acts) = left_open dial false acts

module _ (dial : Bytes → Bytes → Option DialError) (ip_text : Bytes → Bytes) where
  -- The handler serves the header, and `rest` is still to be read.
  handle_conn-serve :
      (h : Header) (rest : Bytes) (s : Session)
      → Opened h rest s
      → (r : Reader) × (available r ≡ rest)
        × (handle_conn dial ip_text s ≡ log closed (serve dial ip_text h (record s { reader = r })))
  unfolding handle_conn
  handle_conn-serve h rest s o =
      let (five, port, short) = o.fits in
      let (r, ran, left, _) = from_reader-marshal h rest s.reader five port short o.arrived in
      (r, left, ap (λ x. log closed (after_header dial ip_text s x)) ran)

  -- The actions on a request for a destination, by the answer of the dial, if writes succeed.
  abbrev pub tunnelled : Header → Bytes → Reader → Option DialError → List Action
  tunnelled h network r none =
      dialed network (destination dial ip_text h)
      ∷ wrote (ack_code_ok ∷ [])
      ∷ proxied h.protocol h.request_id r
      ∷ closed
      ∷ []
  tunnelled h network r (some e) =
      dialed network (destination dial ip_text h) ∷ wrote (ack_code_from_err e ∷ []) ∷ closed ∷ []

  -- And if no write succeeds.
  abbrev pub silent : Header → Bytes → List Action
  silent h network = dialed network (destination dial ip_text h) ∷ closed ∷ []

  forward-serve :
      {p : ℕ} {network : Bytes} (h : Header) (s : Session)
      → Network p network
      → h.protocol ≡ p
      → serve dial ip_text h s ≡ forward dial ip_text network h s
  unfolding serve
  forward-serve h s over_tcp e = rw e refl
  forward-serve h s over_udp e = rw e refl

  module _ (h : Header) (network : Bytes) (s : Session) (new : s.actions ≡ []) where
    abbrev at_dial : Session
    at_dial = log (dialed network (destination dial ip_text h)) s

    after_dial_told :
        (ws : List Bool) (o : Option DialError)
        → s.writable ≡ true ∷ ws
        → (log closed (after_dial dial ip_text h o at_dial)).actions
          ≡ tunnelled h network s.reader o
    unfolding write_ack
    after_dial_told ws none e = rw (e, new) refl
    after_dial_told ws (some x) e = rw (e, new) refl

    after_dial-silent :
        (ws : List Bool) (o : Option DialError)
        → s.writable ≡ false ∷ ws
        → (log closed (after_dial dial ip_text h o at_dial)).actions ≡ silent h network
    unfolding write_ack
    after_dial-silent ws none e = rw (e, new) refl
    after_dial-silent ws (some x) e = rw (e, new) refl

  serve_keepalive :
      (h : Header) (s : Session)
      → s.actions ≡ []
      → h.protocol ≡ protocol_keepalive
      → (log closed (serve dial ip_text h s)).actions ≡ closed ∷ []
  unfolding serve
  serve_keepalive h s new p = rw (p, new) refl

  serve_unknown :
      (h : Header) (s : Session) (ws : List Bool)
      → s.actions ≡ []
      → s.writable ≡ true ∷ ws
      → protocol_keepalive < h.protocol
      → (log closed (serve dial ip_text h s)).actions
        ≡ wrote (ack_code_unknown_protocol ∷ []) ∷ closed ∷ []
  unfolding serve write_ack
  serve_unknown h s ws new e p =
      rw
        (
          gt-== h.protocol 0 (omega arith),
          gt-== h.protocol 1 (omega arith),
          gt-== h.protocol 2 p,
          e,
          new,
        )
        refl

  handle_conn-forward :
      {network : Bytes} (h : Header) (rest : Bytes) (s : Session)
      → Opened h rest s
      → Network h.protocol network
      → (r : Reader) × (available r ≡ rest)
        × (handle_conn dial ip_text s
            ≡ log closed (forward dial ip_text network h (record s { reader = r })))
  handle_conn-forward h rest s o over =
      let (r, left, served) = handle_conn-serve h rest s o in
      (r, left, served ∙ ap (log closed) (forward-serve h (record s { reader = r }) over refl))

  -- A request that arrives whole, in whatever pieces, is served if the client can be written to: the
  -- destination is dialed on the network of the protocol; if that succeeds the client is told so and
  -- the proxy gets the stream from the first byte behind the header on; if it fails the client is
  -- told the code of the error.
  pub handle_conn-marshal :
      {network : Bytes} (h : Header) (rest : Bytes) (s : Session) (ws : List Bool)
      → Opened h rest s
      → Network h.protocol network
      → s.writable ≡ true ∷ ws
      → (r : Reader) × (available r ≡ rest)
        × ((handle_conn dial ip_text s).actions
            ≡ tunnelled h network r (dial network (destination dial ip_text h)))
  unfolding forward
  handle_conn-marshal {network} h rest s ws o over can =
      let (r, left, ran) = handle_conn-forward h rest s o over in
      let answered = dial network (destination dial ip_text h) in
      (
        r,
        left,
        ap (λ t. t.actions) ran
            ∙ after_dial_told h network (record s { reader = r }) o.new ws answered can,
      )

  -- A request for a destination that arrives whole, in whatever pieces, and whose client cannot be
  -- told the outcome, since the write fails: the destination is dialed and the client's connection closed, and nothing else is done. So a connection to the
  -- destination is left open, neither handed to a proxy nor closed, exactly if the dial succeeded.
  pub handle_conn-silent :
      {network : Bytes} (h : Header) (rest : Bytes) (s : Session) (ws : List Bool)
      → Opened h rest s
      → Network h.protocol network
      → s.writable ≡ false ∷ ws
      → ((handle_conn dial ip_text s).actions ≡ silent h network)
        × (left_open dial false (handle_conn dial ip_text s).actions
            ≡ opens (dial network (destination dial ip_text h)))
  unfolding forward
  handle_conn-silent {network} h rest s ws o over cannot =
      let (r, _, ran) = handle_conn-forward h rest s o over in
      let answered = dial network (destination dial ip_text h) in
      let did =
        ap (λ t. t.actions) ran
        ∙ after_dial-silent h network (record s { reader = r }) o.new ws answered cannot in
      (did, ap (left_open dial false) did)

  -- A heartbeat is neither dialed nor acknowledged.
  pub handle_conn_heartbeat :
      (h : Header) (rest : Bytes) (s : Session)
      → Opened h rest s
      → h.protocol ≡ protocol_keepalive
      → (handle_conn dial ip_text s).actions ≡ closed ∷ []
  handle_conn_heartbeat h rest s o p =
      let (r, _, served) = handle_conn-serve h rest s o in
      ap (λ t. t.actions) served ∙ serve_keepalive h (record s { reader = r }) o.new p

  -- A header with a protocol above the known ones is answered by the code of an unknown protocol,
  -- if the client can be written to, and not dialed.
  pub handle_conn_unknown :
      (h : Header) (rest : Bytes) (s : Session) (ws : List Bool)
      → Opened h rest s
      → s.writable ≡ true ∷ ws
      → protocol_keepalive < h.protocol
      → (handle_conn dial ip_text s).actions ≡ wrote (ack_code_unknown_protocol ∷ []) ∷ closed ∷ []
  handle_conn_unknown h rest s ws o can p =
      let (r, _, served) = handle_conn-serve h rest s o in
      ap (λ t. t.actions) served ∙ serve_unknown h (record s { reader = r }) ws o.new can p
