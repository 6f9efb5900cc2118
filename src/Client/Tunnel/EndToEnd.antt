-- ===== src/Client/Tunnel/EndToEnd.antt =====
-- A client that opens a stream, against the handler of the server.
use krelay.Prelude.{
  ℕ, ◌≡◌, refl, ap, ◌∙◌, Bool, true, false, List, [], ◌∷◌, ◌++◌, Option, none, some, ◌==◌,
  if◌then◌else◌, Bytes, Result, ok, err, Bool-cases, inl, inr,
}
use krelay.Prelude.Stateful.{bind_ok}
use krelay.Golib.Reader.{Reader, chunk}
use krelay.Golib.Reader.Laws.{available}
use krelay.Xio.{write_full}
use krelay.Xio.Delivery.{sent, write_full-sent}
use krelay.Xnet.Header.{Header, marshal}
use krelay.Xnet.Ack.{Acknowledgement, ack_marshal, ack_from_reader, ack_code_ok}
use krelay.Xnet.Ack.RoundTrip.{ack_from_reader-ack_marshal}
use krelay.Server.Conn.{
  DialError, ack_code_from_err, Action, wrote, dialed, proxied, closed, upstream_closed, Session,
  ack, handle_conn, destination,
}
use krelay.Server.Conn.Codes.{ack_code_from_err-bounds}
use krelay.Server.Conn.Requests.{Fits, Network, Opened, gt-==, tunnelled, handle_conn-marshal}
use krelay.Client.Tunnel.{
  Stream, TunnelError, not_connected, after_ack, send_header, receive, check_code, open_tunnel,
}

-- What the actions of a handler put on the client's stream.
abbrev pub output : List Action → Bytes
output [] = []
output (wrote b ∷ acts) = b ++ output acts
output (dialed network to ∷ acts) = output acts
output (proxied protocol id r ∷ acts) = output acts
output (closed ∷ acts) = output acts
output (upstream_closed ∷ acts) = output acts

-- What the client makes of the answer of a dial.
abbrev pub verdict : Option DialError → Result TunnelError (Unit {0})
verdict none = ok tt
verdict (some e) = err (not_connected (ack_code_from_err e))

send_header-ok :
    (h : Header) (s : Stream)
    → (write_full s.writer (marshal h)).error ≡ false
    → send_header h s ≡ (ok tt, (send_header h s).1)
unfolding send_header
send_header-ok h s e = rw e refl

send_header-reader : (h : Header) (s : Stream) → (send_header h s).1.reader ≡ s.reader
unfolding send_header
send_header-reader h s = refl

receive-ok :
    (s : Stream) (a : Acknowledgement) (r : Reader)
    → ack_from_reader s.reader ≡ (ok a, r)
    → receive s ≡ (ok a, record s { reader = r })
unfolding receive
receive-ok s a r e = ap (after_ack s) e

check_code-if :
    (c : ℕ) (s : Stream)
    → (check_code c s).0 ≡ (if c == ack_code_ok then ok tt else err (not_connected c))
unfolding check_code
check_code-if c s = elim (Bool-cases (c == ack_code_ok)) [ inl e ↦ rw e refl | inr e ↦ rw e refl ]

-- The client takes the code that it reads behind a header that it could write.
open_tunnel_lem :
    (h : Header) (s : Stream) (c : ℕ) (cs : Bytes) (r : Reader)
    → (write_full s.writer (marshal h)).error ≡ false
    → s.reader ≡ chunk (ack_marshal (ack c) ++ cs) ∷ r
    → (open_tunnel h s).0 ≡ (if c == ack_code_ok then ok tt else err (not_connected c))
unfolding open_tunnel
open_tunnel_lem h s c cs r wrote_all comes =
    let s1 = (send_header h s).1 in
    let (r', got, _) = ack_from_reader-ack_marshal (ack c) cs r in
    let sent_ok : send_header h s ≡ (ok tt, s1) = send_header-ok h s wrote_all in
    let received : receive s1 ≡ (ok (ack c), record s1 { reader = r' }) =
      receive-ok s1 (ack c) r' (ap ack_from_reader (send_header-reader h s ∙ comes) ∙ got) in
    ap (λ x. x.0) (bind_ok (send_header h) _ sent_ok ∙ bind_ok receive _ received)
    ∙ check_code-if c (record s1 { reader = r' })

module _ (dial : Bytes → Bytes → Option DialError) (ip_text : Bytes → Bytes) where
  verdict-if :
      (o : Option DialError)
      → (network : Bytes) (h : Header) (r : Reader)
      → (c : ℕ) × (output (tunnelled dial ip_text h network r o) ≡ ack_marshal (ack c))
        × ((if c == ack_code_ok then ok tt else err (not_connected c)) ≡ verdict o)
  verdict-if none network h r = (ack_code_ok, refl, refl)
  verdict-if (some e) network h r =
      let (above, _) = ack_code_from_err-bounds e in
      (ack_code_from_err e, refl, rw (gt-== (ack_code_from_err e) ack_code_ok above) refl)

  -- The client's opening of a stream succeeds exactly when the server reaches the destination, and
  -- else returns the code of the server's error, if both can write and the server gets what the
  -- client wrote and the client what the server wrote, with or without more behind it.
  pub open_tunnel-handle_conn :
      {network : Bytes} (h : Header) (s : Stream) (c : Session) (rest cs : Bytes) (r : Reader)
      (ws : List Bool)
      → Fits h
      → Network h.protocol network
      → c.actions ≡ []
      → c.writable ≡ true ∷ ws
      → (write_full s.writer (marshal h)).error ≡ false
      → available c.reader ≡ sent (write_full s.writer (marshal h)).writes ++ rest
      → s.reader ≡ chunk (output (handle_conn dial ip_text c).actions ++ cs) ∷ r
      → (open_tunnel h s).0 ≡ verdict (dial network (destination dial ip_text h))
  open_tunnel-handle_conn {network} h s c rest cs r ws fits over new can wrote_all arrives comes =
      let opened : Opened h rest c = record {
        fits = fits;
        new = new;
        arrived = arrives ∙ ap (◌++ rest) (write_full-sent s.writer (marshal h) wrote_all);
      } in
      let (left, _, served) = handle_conn-marshal dial ip_text h rest c ws opened over can in
      let answered = dial network (destination dial ip_text h) in
      let (code, told, known) = verdict-if answered network h left in
      open_tunnel_lem h s code cs r wrote_all
        (comes ∙ ap (λ b. chunk (b ++ cs) ∷ r) (ap output served ∙ told))
      ∙ known
