-- ===== src/Xnet/Tcp/Flow.antt =====
-- What the proxy passes on.
use mathlib.Core.List.{flatten, IsPrefix}
use krelay.Prelude.{◌≡◌, false, append-nil, refl, sym, ap, ◌∙◌, [], ◌++◌, take, append_assoc}
use krelay.Xnet.Tcp.{
  copying, stopped, announced, returned, End, Proxy, start, close_end, select_near, NearQuiet,
  read_ends, write_fails, announces, closes, selects, finishes, NearStep, quiet, sends, ends, gets,
  reads, writes, read_breaks, write_breaks, Step, near_step, far_step, Reach, here, next,
}
use krelay.Xnet.Tcp.Stream.{
  flatten-append, held, reads_on, Copied, copied, Kept, kept, receive-Copied, stop-Copied,
  read-Copied, write-Copied, break-Copied, put-Kept, get-Kept, close-Kept,
}

abbrev Flows : End → End → Type 0
Flows src dst =
    Copied src.broker src.inbox dst.written src.arrived
    × Kept dst.delivered dst.pending dst.written dst.closed

abbrev IsSound : Proxy → Type 0
IsSound p = Flows p.near p.far × Flows p.far p.near

NearQuiet-IsSound : {p q : Proxy} → IsSound p → NearQuiet p q → IsSound q
unfolding select_near close_end
NearQuiet-IsSound ((c, k), back) (reads is_copying _ has) =
    ((read-Copied is_copying has c, k), back)
NearQuiet-IsSound ((c, k), back) (read_ends _ _) = ((stop-Copied stopped refl refl c, k), back)
NearQuiet-IsSound ((c, k), back) (write_fails _ _) = ((stop-Copied stopped refl refl c, k), back)
NearQuiet-IsSound ((c, k), back) (announces _) = ((stop-Copied announced refl refl c, k), back)
NearQuiet-IsSound {p} ((c, k), (c', k')) (closes _) =
    ((stop-Copied returned refl refl c, k), (c', close-Kept p.near.linger_zero k'))
NearQuiet-IsSound i (selects _ _) = i
NearQuiet-IsSound i (finishes _ _) = i

NearStep-IsSound : {p q : Proxy} → IsSound p → NearStep p q → IsSound q
NearStep-IsSound i (quiet step) = NearQuiet-IsSound i step
NearStep-IsSound ((c, k), back) (sends b _) = ((receive-Copied b c, k), back)
NearStep-IsSound i ends = i
NearStep-IsSound (forth, (c, k)) (gets has) = (forth, (c, get-Kept has k))
NearStep-IsSound ((c, k), back) (writes {b} is_holding far_open) =
    ((write-Copied is_holding c, put-Kept b far_open k), back)
NearStep-IsSound ((c, k), back) (read_breaks _) = ((stop-Copied stopped refl refl c, k), back)
NearStep-IsSound ((c, k), back) (write_breaks {b} n is_holding far_open) =
    ((break-Copied n is_holding c, put-Kept (take n b) far_open k), back)

Step-IsSound : {p q : Proxy} → IsSound p → Step p q → IsSound q
Step-IsSound i (near_step step) = NearStep-IsSound i step
Step-IsSound (forth, back) (far_step step) =
    let (back', forth') = NearStep-IsSound (back, forth) step in (forth', back')

Reach-IsSound : {p : Proxy} → Reach start p → IsSound p
unfolding start flatten
Reach-IsSound here =
    let c = copied [] refl (λ _. refl) in let k = kept [] refl (λ _. refl) in ((c, k), (c, k))
Reach-IsSound (next r step) = Step-IsSound (Reach-IsSound r) step

Flows-prefix :
    (src dst : End) → Flows src dst → IsPrefix (flatten dst.delivered) (flatten src.arrived)
Flows-prefix src dst (copied rest e _, kept lost e' _) = (
  flatten (dst.pending ++ lost) ++ (held src.broker ++ rest),
  sym (
      e
      ∙ ap (λ x. flatten x ++ (held src.broker ++ rest))
          (e' ∙ append_assoc dst.delivered dst.pending lost)
      ∙ rw (flatten-append dst.delivered (dst.pending ++ lost), append_assoc)),
)

-- In every reachable state, what the upstream got is a beginning of what the client sent, and what
-- the client got is a beginning of what the upstream sent: nothing is reordered, doubled or made up,
-- however the reads, the writes, the ends and the closes fall.
pub delivered_prefix :
    {p : Proxy}
    → Reach start p
    → IsPrefix (flatten p.far.delivered) (flatten p.near.arrived)
      × IsPrefix (flatten p.near.delivered) (flatten p.far.arrived)
delivered_prefix {p} r =
    let (forth, back) = Reach-IsSound r in
    (Flows-prefix p.near p.far forth, Flows-prefix p.far p.near back)

Flows-all :
    (src dst : End)
    → Flows src dst
    → src.broker ≡ copying
    → src.inbox ≡ []
    → dst.closed ≡ false
    → flatten src.arrived ≡ flatten (dst.delivered ++ dst.pending)
unfolding flatten
Flows-all src dst (copied rest e unread, kept lost e' full) is_copying empty is_open =
    let none_held : held src.broker ++ rest ≡ [] =
      ap (λ b. held b ++ rest) is_copying ∙ unread (ap reads_on is_copying) ∙ ap flatten empty in
    let none_lost : dst.written ≡ dst.delivered ++ dst.pending =
      e'
      ∙ ap (λ l. (dst.delivered ++ dst.pending) ++ l) (full is_open)
      ∙ append-nil (dst.delivered ++ dst.pending) in
    e
    ∙ ap (λ x. flatten dst.written ++ x) none_held
    ∙ append-nil (flatten dst.written)
    ∙ ap flatten none_lost

-- Nothing is lost on the way: in every reachable state in which the broker of the client is in its
-- read and finds nothing more, as at the end of the client's side, all that the client sent has
-- reached the upstream or is still pending for it, as long as that connection is not closed.
pub all_passed :
    {p : Proxy}
    → Reach start p
    → p.near.broker ≡ copying
    → p.near.inbox ≡ []
    → p.far.closed ≡ false
    → flatten p.near.arrived ≡ flatten (p.far.delivered ++ p.far.pending)
all_passed {p} r is_copying empty is_open =
    let (forth, _) = Reach-IsSound r in Flows-all p.near p.far forth is_copying empty is_open
