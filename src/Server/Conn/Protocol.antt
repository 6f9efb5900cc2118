-- ===== src/Server/Conn/Protocol.antt =====
-- The protocol of one connection, as a machine whose steps are the actions of the server, and the
-- runs of the machine that `handleConn` makes.
use mathlib.Core.Path.{subst}
use krelay.Prelude.{
  ℕ, ◌≡◌, refl, ap, Bool, true, false, List, [], ◌∷◌, ◌++◌, Option, none, some, ◌==◌, Bytes, Result,
  ok, err, ◌⊎◌, inl, inr, append_assoc, append-nil, sym, ◌∙◌, if◌then◌else◌, codes,
}
use krelay.Golib.Reader.{Reader}
use krelay.Xnet.Addr.{protocol_tcp, protocol_udp, protocol_keepalive}
use krelay.Xnet.Header.{Header, HeaderError, from_reader}
use krelay.Xnet.Ack.{ack_code_ok, ack_code_unknown_protocol}
use krelay.Server.Conn.{
  DialError, ack_code_from_err, Action, dialed, wrote, proxied, closed, Session, log, ack,
  write_ack, write_to, start_proxy, after_dial, after_header, forward, serve, handle_conn,
  destination,
}

-- Nothing done; a destination reached, or not; the client told; a proxy at work; the end.
pub data Phase : Type 0 where
  fresh connected ready finished ended : Phase
  failed : DialError → Phase

-- The phases in which the handler may return. With a proxy still to start it may not.
pub data Closes : Phase → Type 0 where
  fresh_closes : Closes fresh
  connected_closes : Closes connected
  finished_closes : Closes finished
  failed_closes : {e : DialError} → Closes (failed e)

module _ (dial : Bytes → Bytes → Option DialError) where
  pub data Step : Phase → Action → Phase → Type 0 where
    reach : {network to : Bytes} → dial network to ≡ none → Step fresh (dialed network to) connected
    miss :
        {network to : Bytes} {e : DialError}
        → dial network to ≡ some e
        → Step fresh (dialed network to) (failed e)
    accept : Step connected (wrote (ack_code_ok ∷ [])) ready
    refuse : {e : DialError} → Step (failed e) (wrote (ack_code_from_err e ∷ [])) finished
    unknown : Step fresh (wrote (ack_code_unknown_protocol ∷ [])) finished
    proxy : {protocol : ℕ} {id : Bytes} {r : Reader} → Step ready (proxied protocol id r) finished
    close : {p : Phase} → Closes p → Step p closed ended

  pub data Trace : Phase → List Action → Phase → Type 0 where
    here : {p : Phase} → Trace p [] p
    step :
        {p q r : Phase} {a : Action} {acts : List Action}
        → Step p a q
        → Trace q acts r
        → Trace p (a ∷ acts) r

  append-Trace :
      {p q r : Phase} {acts bs : List Action}
      → Trace p acts q
      → Trace q bs r
      → Trace p (acts ++ bs) r
  append-Trace here more = more
  append-Trace (step first path) more = step first (append-Trace path more)

  -- The actions between two sessions are a path from a phase to one where the server may close.
  abbrev pub Serves : Phase → Session → Session → Type 0
  Serves p s t =
      (q : Phase) × (acts : List Action) × (t.actions ≡ s.actions ++ acts)
      × Trace p acts q
      × Closes q

  nothing-Serves : {p : Phase} (s t : Session) → Closes p → t.actions ≡ s.actions → Serves p s t
  nothing-Serves {p} s t c same = (p, [], same ∙ sym (append-nil s.actions), here, c)

  -- One action, and a run behind it.
  one_action-Serves :
      {p q : Phase} {a : Action} (s m t : Session)
      → Step p a q
      → m.actions ≡ s.actions ++ a ∷ []
      → Serves q m t
      → Serves p s t
  one_action-Serves {a = a} s m t first one (r, acts, more, path, c) = (
    r,
    a ∷ acts,
    more ∙ ap (◌++ acts) one ∙ append_assoc s.actions (a ∷ []) acts,
    step first path,
    c,
  )

-- A write goes out, or leaves the actions acts they were.
write_ack-cases :
    (c : ℕ) (s : Session)
    → ((write_ack (ack c) s).0 ≡ true)
        × ((write_ack (ack c) s).1.actions ≡ s.actions ++ wrote (c ∷ []) ∷ [])
      ⊎ ((write_ack (ack c) s).0 ≡ false) × ((write_ack (ack c) s).1.actions ≡ s.actions)
unfolding write_ack
write_ack-cases c s = go s.writable
  where
    go :
        (ws : List Bool)
        → ((write_to (c ∷ []) ws s).0 ≡ true)
            × ((write_to (c ∷ []) ws s).1.actions ≡ s.actions ++ wrote (c ∷ []) ∷ [])
          ⊎ ((write_to (c ∷ []) ws s).0 ≡ false) × ((write_to (c ∷ []) ws s).1.actions ≡ s.actions)
    go [] = inr (refl, refl)
    go (true ∷ ws) = inl (refl, refl)
    go (false ∷ ws) = inr (refl, refl)

if-elim {ℓ} :
    {A : Type 0} (P : A → Type ℓ) (b : Bool) {x y : A} → P x → P y → P (if b then x else y)
if-elim P true hx hy = hx
if-elim P false hx hy = hy

module _ (dial : Bytes → Bytes → Option DialError) (ip_text : Bytes → Bytes) where
  -- An acknowledgement that ends the handler.
  last-Serves :
      {p : Phase} (c : ℕ) (s : Session)
      → Step dial p (wrote (c ∷ [])) finished
      → Closes p
      → Serves dial p s (write_ack (ack c) s).1
  last-Serves c s told may_close =
      let t = (write_ack (ack c) s).1 in
      elim (write_ack-cases c s) [
        | inl (_, one) ↦
            one_action-Serves dial s t t told one (nothing-Serves dial t t finished_closes refl)
        | inr (_, same) ↦ nothing-Serves dial s t may_close same
      ]

  start_proxy-Serves :
      (h : Header) (s : Session)
      → Serves dial connected s (start_proxy dial ip_text h (write_ack (ack ack_code_ok) s))
  start_proxy-Serves h s =
      let t = (write_ack (ack ack_code_ok) s).1 in
      let started = log (proxied h.protocol h.request_id t.reader) t in
      elim (write_ack-cases ack_code_ok s) [
        | inl (went, one) ↦
            subst (λ b. Serves dial connected s (start_proxy dial ip_text h (b, t))) (sym went)
              (one_action-Serves dial s t started accept one (
                one_action-Serves dial t started started proxy refl
                  (nothing-Serves dial started started finished_closes refl)))
        | inr (failed_write, same) ↦
            subst (λ b. Serves dial connected s (start_proxy dial ip_text h (b, t)))
              (sym failed_write) (nothing-Serves dial s t connected_closes same)
      ]

  after_dial-Serves :
      (network to : Bytes) (h : Header) (s : Session) (o : Option DialError)
      → dial network to ≡ o
      → Serves dial fresh s (after_dial dial ip_text h o (log (dialed network to) s))
  after_dial-Serves network to h s none reached =
      let m = log (dialed network to) s in
      one_action-Serves dial s m (after_dial dial ip_text h none m) (reach reached) refl
        (start_proxy-Serves h m)
  after_dial-Serves network to h s (some e) missed =
      let m = log (dialed network to) s in
      one_action-Serves dial s m (after_dial dial ip_text h (some e) m) (miss missed) refl
        (last-Serves (ack_code_from_err e) m refuse failed_closes)

  serve-Serves : (h : Header) (s : Session) → Serves dial fresh s (serve dial ip_text h s)
  unfolding serve forward
  serve-Serves h s =
      let to = destination dial ip_text h in
      if-elim (λ t. Serves dial fresh s t) (h.protocol == protocol_tcp)
        (after_dial-Serves (codes "tcp") to h s _ refl)
        (if-elim (λ t. Serves dial fresh s t) (h.protocol == protocol_udp)
          (after_dial-Serves (codes "udp") to h s _ refl)
          (if-elim (λ t. Serves dial fresh s t) (h.protocol == protocol_keepalive)
            (nothing-Serves dial s s fresh_closes refl)
            (last-Serves ack_code_unknown_protocol s unknown fresh_closes)))

  after_header-Serves :
      (s : Session) (x : Result HeaderError Header × Reader)
      → Serves dial fresh s (after_header dial ip_text s x)
  after_header-Serves s (err e, r) =
      nothing-Serves dial s (record s { reader = r }) fresh_closes refl
  after_header-Serves s (ok h, r) = serve-Serves h (record s { reader = r })

  -- The actions of `handleConn` on a new connection are a path of the protocol from its first phase
  -- to its last, whatever the client sends, whichever writes fail and whatever the dial answers: at
  -- most one dial and one acknowledgement, which tells of success only behind a dial that
  -- succeeded, a proxy only behind that acknowledgement, and the client's connection closed last.
  pub handle_conn-Trace :
      (s : Session) → s.actions ≡ [] → Trace dial fresh (handle_conn dial ip_text s).actions ended
  unfolding handle_conn
  handle_conn-Trace s new =
      let (q, acts, run, path, c) = after_header-Serves s (from_reader s.reader) in
      subst (λ l. Trace dial fresh (l ++ closed ∷ []) ended) (sym (run ∙ ap (◌++ acts) new))
        (append-Trace dial path (step (close c) here))
