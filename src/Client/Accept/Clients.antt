-- ===== src/Client/Accept/Clients.antt =====
-- No client is dropped.
use krelay.Prelude.{
  ℕ, ◌≡◌, refl, ap, ◌∙◌, Bool, List, [], ◌∷◌, ◌++◌, Option, none, some, Bool-cases, inl, inr,
  if◌then◌else◌,
}
use krelay.Xnet.Addr.{Addr}
use krelay.Client.Accept.{
  Round, Served, handled, turned_away, listener_closed, serve, on_accept, accept_loop, on_socks5,
  run_socks5_server,
}

-- The rounds that the loop gets through: those in front of the first in which the connection is lost
-- or `Accept` fails, each by its client and what `Get` returned.
abbrev pub admit : Option ℕ → Option Addr → List (ℕ × Option Addr) → List (ℕ × Option Addr)
admit none addr later = []
admit (some client) addr later = (client, addr) ∷ later

abbrev pub admitted : List Round → List (ℕ × Option Addr)
admitted [] = []
admitted (r ∷ rs) = let later = admitted rs in if r.lost then [] else admit r.accepted r.addr later

-- The client of an action.
abbrev pub client_of : Served → List ℕ
client_of (handled client to) = client ∷ []
client_of (turned_away client) = client ∷ []
client_of listener_closed = []

abbrev pub clients : List Served → List ℕ
clients [] = []
clients (s ∷ ss) = client_of s ++ clients ss

abbrev pub firsts : List (ℕ × Option Addr) → List ℕ
firsts [] = []
firsts ((client, addr) ∷ rest) = client ∷ firsts rest

serve-client :
    (port client : ℕ) (addr : Option Addr) → client_of (serve port client addr) ≡ client ∷ []
serve-client port client none = refl
serve-client port client (some a) = refl

on_accept-clients :
    (port : ℕ) (accepted : Option ℕ) (addr : Option Addr) (later : List Served)
    (more : List (ℕ × Option Addr))
    → clients later ≡ firsts more
    → clients (on_accept port accepted addr later) ≡ firsts (admit accepted addr more)
on_accept-clients port none addr later more e = refl
on_accept-clients port (some client) addr later more e =
    ap (λ x. x ++ clients later) (serve-client port client addr) ∙ ap (◌∷◌ client) e

on_socks5-clients :
    (accepted : Option ℕ) (addr : Option Addr) (later : List ℕ × Bool)
    (more : List (ℕ × Option Addr))
    → later.0 ≡ firsts more
    → (on_socks5 accepted later).0 ≡ firsts (admit accepted addr more)
on_socks5-clients none addr later more e = refl
on_socks5-clients (some client) addr later more e = ap (◌∷◌ client) e

-- A TCP forwarder and the SOCKS5 server get through the same clients in the same order, those that
-- `Accept` returned in front of the first lost connection or failed `Accept`, and each of them is
-- handled or closed, once.
pub accept_loop-clients :
    (port : ℕ) (rs : List Round)
    → (clients (accept_loop port rs) ≡ firsts (admitted rs))
      × ((run_socks5_server rs).0 ≡ firsts (admitted rs))
unfolding accept_loop run_socks5_server
accept_loop-clients port [] = (refl, refl)
accept_loop-clients port (r ∷ rs) =
    let (e, e') = accept_loop-clients port rs in
    elim (Bool-cases r.lost) [
      | inl lost ↦ rw lost (refl, refl)
      | inr kept ↦ rw kept (
        on_accept-clients port r.accepted r.addr (accept_loop port rs) (admitted rs) e,
        on_socks5-clients r.accepted r.addr (run_socks5_server rs) (admitted rs) e',
      )
    ]
