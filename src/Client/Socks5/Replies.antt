-- ===== src/Client/Socks5/Replies.antt =====
-- What the handshake writes, on every run.
use mathlib.Core.Path.{subst}
use krelay.Prelude.{
  ℕ, ◌≡◌, ◌≢◌, ◌⊎◌, inl, inr, refl, sym, ap, ◌∙◌, Bool, true, false, List, [], ◌∷◌, ◌++◌,
  append_assoc, arith, Bytes, ok, err, Result, ◌==◌, get_or, Bool-cases,
}
use krelay.Prelude.Stateful.{continue-cases, returns, ◌>>=◌, ◌>>◌, continue}
use krelay.Xnet.Addr.{AddrPort, addr_port_from}
use krelay.Client.Socks5.{
  Conn, Handshake, HandshakeError, read_bytes, read_uint16, read_string, write, write_as,
  unsupported_command, write_and_fail, method_reply, reply, read_addr, answer, socks5_handshake,
}

-- Reading writes nothing.
read_bytes-replies : (n : ℕ) (c : Conn) → (read_bytes n c).1.replies ≡ c.replies
unfolding read_bytes
read_bytes-replies n c = ground arith

Keeps-bind :
    {A B : Type 0} (m : Handshake A) (f : A → Handshake B) (c : Conn)
    → (m c).1.replies ≡ c.replies
    → ((a : A) (c' : Conn) → (f a c').1.replies ≡ c'.replies)
    → ((m >>= f) c).1.replies ≡ c.replies
Keeps-bind m f c h k =
    continue-cases (λ x. x.1.replies ≡ c.replies) f (m c)
      (λ a s e. k a s ∙ sym (ap (λ x. x.1.replies) e) ∙ h)
      (λ x s e. sym (ap (λ x. x.1.replies) e) ∙ h)

read_uint16-replies : (c : Conn) → (read_uint16 c).1.replies ≡ c.replies
unfolding read_uint16
read_uint16-replies c = Keeps-bind (read_bytes 2) _ c (read_bytes-replies 2 c) (λ a c'. refl)

read_string-replies : (c : Conn) → (read_string c).1.replies ≡ c.replies
unfolding read_string
read_string-replies c =
    Keeps-bind (read_bytes 1) _ c (read_bytes-replies 1 c)
      (λ a c'. read_bytes-replies (get_or a 0 0) c')

-- What the client was told, beginning with the replies before the handshake: success by the two
-- success replies, and a failure by none of them, or by the first of them alone, or followed by
-- a reply with an error code.
abbrev pub Told : List Bytes → Result HandshakeError AddrPort × Conn → Type 0
Told rs (ok to, c) = c.replies ≡ rs ++ (method_reply ∷ reply 0 ∷ [])
Told rs (err e, c) =
    (c.replies ≡ rs)
    ⊎ (c.replies ≡ rs ++ method_reply ∷ [])
    ⊎ ((code : ℕ) × (code ≢ 0) × (c.replies ≡ rs ++ (method_reply ∷ reply code ∷ [])))

-- Nothing was written, or one reply with an error code.
abbrev Refused : List Bytes → Conn → Type 0
Refused rs c = (c.replies ≡ rs) ⊎ ((code : ℕ) × (code ≢ 0) × (c.replies ≡ rs ++ reply code ∷ []))

abbrev Failed : {A : Type 0} → List Bytes → Result HandshakeError A × Conn → Type 0
Failed rs (ok a, c) = c.replies ≡ rs
Failed rs (err e, c) = Refused rs c

kept-Failed :
    {A : Type 0} (rs : List Bytes) (x : Result HandshakeError A × Conn)
    → x.1.replies ≡ rs
    → Failed rs x
kept-Failed rs (ok a, c) h = h
kept-Failed rs (err e, c) h = inl h

write-Refused : (code : ℕ) (c : Conn) → code ≢ 0 → Refused c.replies (write (reply code) c).1
unfolding write
write-Refused code c h = go c.writable
  where
    go : (ws : List Bool) → Refused c.replies (write_as (reply code) ws c).1
    go [] = inl refl
    go (true ∷ ws) = inr (code, h, refl)
    go (false ∷ ws) = inl refl

read_addr-Failed : (typ : ℕ) (c : Conn) → Failed c.replies (read_addr typ c)
unfolding read_addr
read_addr-Failed typ c = elim (Bool-cases (typ == 1)) [
  | inl v4 ↦ rw v4 (
      kept-Failed c.replies _
        (Keeps-bind (read_bytes 4) _ c (read_bytes-replies 4 c) (λ a c'. refl)))
  | inr not_v4 ↦ elim (Bool-cases (typ == 4)) [
    | inl v6 ↦
        rw (not_v4, v6)
          (kept-Failed c.replies _
            (Keeps-bind (read_bytes 16) _ c (read_bytes-replies 16 c) (λ a c'. refl)))
    | inr not_v6 ↦ elim (Bool-cases (typ == 3)) [
      | inl host ↦
          rw (not_v4, not_v6, host)
            (kept-Failed c.replies _
              (Keeps-bind read_string _ c (read_string-replies c) (λ a c'. refl)))
      | inr unknown ↦
          rw (not_v4, not_v6, unknown) (unfold write_and_fail in write-Refused 8 c (omega arith))
    ]
  ]
]

-- The handshake behind the method reply.
abbrev request_steps : Handshake AddrPort
request_steps = do
  request ← read_bytes 3
  typ ← read_bytes 1
  addr ← read_addr (get_or typ 0 0)
  port ← read_uint16
  answer (get_or request 1 0)
  returns (addr_port_from addr port)

module _ (rs : List Bytes) where
  -- A step behind the method reply that fails.
  write_and_fail-Told :
      (e : HandshakeError) (c : Conn) → Refused (rs ++ method_reply ∷ []) c → Told rs (err e, c)
  write_and_fail-Told e c (inl h) = inr (inl h)
  write_and_fail-Told e c (inr (code, ne, h)) =
      inr (inr (code, ne, h ∙ append_assoc rs (method_reply ∷ []) (reply code ∷ [])))

  success-Told :
      (to : AddrPort) (c : Conn)
      → c.replies ≡ rs ++ method_reply ∷ []
      → Told rs ((write (reply 0) >>= λ _. returns to) c)
  unfolding write
  success-Told to c h = go c.writable
    where
      go : (ws : List Bool) → Told rs (continue (λ _. returns to) (write_as (reply 0) ws c))
      go [] = inr (inl h)
      go (true ∷ ws) = rw h (append_assoc rs (method_reply ∷ []) (reply 0 ∷ []))
      go (false ∷ ws) = inr (inl h)

  answer-Told :
      (cmd : ℕ) (to : AddrPort) (c : Conn)
      → c.replies ≡ rs ++ method_reply ∷ []
      → Told rs ((answer cmd >>= λ _. returns to) c)
  unfolding answer
  answer-Told cmd to c h = elim (Bool-cases (cmd == 1)) [
    | inl connect ↦ rw connect (success-Told to c h)
    | inr other ↦ rw other (
        unfold write_and_fail in
        write_and_fail-Told (unsupported_command cmd) (write (reply 7) c).1
          (subst (λ t. Refused t (write (reply 7) c).1) h (write-Refused 7 c (omega arith))))
  ]

  -- The steps behind the method reply, beginning with the address.
  address-Told :
      (typ cmd : ℕ) (c : Conn)
      → c.replies ≡ rs ++ method_reply ∷ []
      → Told rs (
          (do
            addr ← read_addr typ
            port ← read_uint16
            answer cmd
            returns (addr_port_from addr port))
            c)
  address-Told typ cmd c h =
      continue-cases (Told rs) _ (read_addr typ c)
        (λ addr c1 e1.
          let same1 = subst (Failed c.replies) e1 (read_addr-Failed typ c) ∙ h in
          continue-cases (Told rs) _ (read_uint16 c1)
            (λ port c2 e2.
              answer-Told cmd (addr_port_from addr port) c2
                (sym (ap (λ x. x.1.replies) e2) ∙ read_uint16-replies c1 ∙ same1))
            (λ e c2 e2.
              write_and_fail-Told e c2
                (inl (sym (ap (λ x. x.1.replies) e2) ∙ read_uint16-replies c1 ∙ same1))))
        (λ e c1 e1.
          write_and_fail-Told e c1
            (subst (λ t. Refused t c1) h (subst (Failed c.replies) e1 (read_addr-Failed typ c))))

  request-Told : (c : Conn) → c.replies ≡ rs ++ method_reply ∷ [] → Told rs (request_steps c)
  request-Told c h =
      continue-cases (Told rs) _ (read_bytes 3 c)
        (λ b c1 e1.
          let same1 = sym (ap (λ x. x.1.replies) e1) ∙ read_bytes-replies 3 c ∙ h in
          continue-cases (Told rs) _ (read_bytes 1 c1)
            (λ t c2 e2.
              address-Told (get_or t 0 0) (get_or b 1 0) c2
                (sym (ap (λ x. x.1.replies) e2) ∙ read_bytes-replies 1 c1 ∙ same1))
            (λ e c2 e2.
              inr (inl (sym (ap (λ x. x.1.replies) e2) ∙ read_bytes-replies 1 c1 ∙ same1))))
        (λ e c1 e1. inr (inl (sym (ap (λ x. x.1.replies) e1) ∙ read_bytes-replies 3 c ∙ h)))

  method-Told :
      (c : Conn) → c.replies ≡ rs → Told rs ((write method_reply >>= λ _. request_steps) c)
  unfolding write
  method-Told c h = go c.writable
    where
      go : (ws : List Bool) → Told rs (continue (λ _. request_steps) (write_as method_reply ws c))
      go [] = inl h
      go (true ∷ ws) = request-Told _ (ap (λ t. t ++ method_reply ∷ []) h)
      go (false ∷ ws) = inl h

-- The client is told of success exactly when the handshake returns an address: then the method
-- reply and the success reply were written, and nothing else. When it fails, nothing was written,
-- or the method reply, or the method reply and a reply with an error code.
pub socks5_handshake-Told : (c : Conn) → Told c.replies (socks5_handshake c)
unfolding socks5_handshake
socks5_handshake-Told c =
    let told = Told c.replies in
    continue-cases told _ (read_bytes 2 c)
      (λ head c1 e1.
        let same1 = sym (ap (λ x. x.1.replies) e1) ∙ read_bytes-replies 2 c in
        let n = get_or head 1 0 in
        continue-cases told _ (read_bytes n c1)
          (λ methods c2 e2.
            method-Told c.replies c2
              (sym (ap (λ x. x.1.replies) e2) ∙ read_bytes-replies n c1 ∙ same1))
          (λ e c2 e2. inl (sym (ap (λ x. x.1.replies) e2) ∙ read_bytes-replies n c1 ∙ same1)))
      (λ e c1 e1. inl (sym (ap (λ x. x.1.replies) e1) ∙ read_bytes-replies 2 c))
