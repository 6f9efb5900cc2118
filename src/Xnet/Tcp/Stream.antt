-- ===== src/Xnet/Tcp/Stream.antt =====
-- One direction of the proxy, and what a step does to it.
use mathlib.Core.Path.{subst}
use mathlib.Core.List.{flatten}
use krelay.Prelude.{
  ℕ, if◌then◌else◌, ◌≡◌, refl, sym, ap, ◌∙◌, Bool, true, false, List, [], ◌∷◌, ◌++◌, Bytes, take,
  drop, take-append-drop, append_assoc, append-nil,
}
use krelay.Xnet.Tcp.{Broker, copying, stopped, announced, returned, holding}

pub flatten-append : (xs ys : List Bytes) → flatten (xs ++ ys) ≡ flatten xs ++ flatten ys
unfolding flatten
flatten-append [] ys = refl
flatten-append (x ∷ xs) ys = rw (append_assoc, flatten-append xs ys)

flatten-snoc : (xs : List Bytes) (b : Bytes) → flatten (xs ++ b ∷ []) ≡ flatten xs ++ b
unfolding flatten
flatten-snoc xs b = flatten-append xs (b ∷ []) ∙ rw append-nil

flatten-shift :
    (xs : List Bytes) (b rest : Bytes) → flatten xs ++ (b ++ rest) ≡ flatten (xs ++ b ∷ []) ++ rest
flatten-shift xs b rest =
    sym (ap (λ x. x ++ rest) (flatten-snoc xs b) ∙ append_assoc (flatten xs) b rest)

-- What a broker has read and not written.
abbrev pub held : Broker → Bytes
held copying = []
held stopped = []
held announced = []
held returned = []
held (holding b) = b

-- It will read again.
abbrev pub reads_on : Broker → Bool
reads_on copying = true
reads_on stopped = false
reads_on announced = false
reads_on returned = false
reads_on (holding b) = true

-- What arrived is what was written, then what the broker holds, then the rest, which is still in the
-- inbox as long as the broker reads on.
pub data Copied (b : Broker) (inbox written arrived : List Bytes) : Type 0 where
  copied :
      (rest : Bytes)
      → flatten arrived ≡ flatten written ++ (held b ++ rest)
      → (reads_on b ≡ true → rest ≡ flatten inbox)
      → Copied b inbox written arrived

-- What was written is what was delivered, then what is pending, then what a close threw away.
pub data Kept (delivered pending written : List Bytes) (closed : Bool) : Type 0 where
  kept :
      (lost : List Bytes)
      → written ≡ (delivered ++ pending) ++ lost
      → (closed ≡ false → lost ≡ [])
      → Kept delivered pending written closed

pub receive-Copied :
    {b : Broker} {inbox written arrived : List Bytes} (c : Bytes)
    → Copied b inbox written arrived
    → Copied b (inbox ++ c ∷ []) written (arrived ++ c ∷ [])
receive-Copied {b} {inbox} {written} {arrived} c (copied rest e unread) =
    copied (rest ++ c)
      (flatten-snoc arrived c
        ∙ ap (λ x. x ++ c) e
        ∙ append_assoc (flatten written) (held b ++ rest) c
        ∙ ap (λ x. flatten written ++ x) (append_assoc (held b) rest c))
      (λ o. ap (λ x. x ++ c) (unread o) ∙ sym (flatten-snoc inbox c))

-- The broker gives up.
pub stop-Copied :
    {b : Broker} {inbox written arrived : List Bytes} (b' : Broker)
    → reads_on b' ≡ false
    → held b' ≡ []
    → Copied b inbox written arrived
    → Copied b' inbox written arrived
stop-Copied {b} {inbox} {written} {arrived} b' off empty (copied rest e unread) =
    copied (held b ++ rest)
      (subst (λ h. flatten arrived ≡ flatten written ++ (h ++ (held b ++ rest))) (sym empty) e)
      (λ o. absurd cc)

pub read-Copied :
    {b : Broker} {inbox written arrived : List Bytes} {c : Bytes} {cs : List Bytes}
    → b ≡ copying
    → inbox ≡ c ∷ cs
    → Copied b inbox written arrived
    → Copied (holding c) cs written arrived
unfolding flatten
read-Copied {written} {c} {cs} is_copying has (copied rest e unread) =
    let unread' = unread (ap reads_on is_copying) ∙ ap flatten has in
    copied (flatten cs)
      (e ∙ ap (λ x. flatten written ++ x) (ap (λ b. held b ++ rest) is_copying ∙ unread'))
      (λ _. refl)

-- A write, of all that the broker holds or of a part.
pub write-Copied :
    {b : Broker} {inbox written arrived : List Bytes} {c : Bytes}
    → b ≡ holding c
    → Copied b inbox written arrived
    → Copied copying inbox (written ++ c ∷ []) arrived
write-Copied {written} {c} is_holding (copied rest e unread) =
    copied rest
      (e ∙ ap (λ b. flatten written ++ (held b ++ rest)) is_holding ∙ flatten-shift written c rest)
      (λ _. unread (ap reads_on is_holding))

pub break-Copied :
    {b : Broker} {inbox written arrived : List Bytes} {c : Bytes} (n : ℕ)
    → b ≡ holding c
    → Copied b inbox written arrived
    → Copied stopped inbox (written ++ take n c ∷ []) arrived
break-Copied {written} {c} n is_holding (copied rest e unread) =
    copied (drop n c ++ rest)
      (e
        ∙ ap (λ b. flatten written ++ (held b ++ rest)) is_holding
        ∙ ap (λ x. flatten written ++ (x ++ rest)) (sym (take-append-drop n c))
        ∙ ap (λ x. flatten written ++ x) (append_assoc (take n c) (drop n c) rest)
        ∙ flatten-shift written (take n c) (drop n c ++ rest))
      (λ o. absurd cc)

pub put-Kept :
    {delivered pending written : List Bytes} {closed : Bool} (c : Bytes)
    → closed ≡ false
    → Kept delivered pending written closed
    → Kept delivered (pending ++ c ∷ []) (written ++ c ∷ []) closed
put-Kept {delivered} {pending} c is_open (kept lost e full) =
    let e' =
      e
      ∙ ap (λ l. (delivered ++ pending) ++ l) (full is_open)
      ∙ append-nil (delivered ++ pending) in
    kept []
      (ap (λ x. x ++ c ∷ []) e'
        ∙ append_assoc delivered pending (c ∷ [])
        ∙ sym (append-nil (delivered ++ (pending ++ c ∷ []))))
      (λ _. refl)

pub get-Kept :
    {delivered pending written : List Bytes} {closed : Bool} {c : Bytes} {cs : List Bytes}
    → pending ≡ c ∷ cs
    → Kept delivered pending written closed
    → Kept (delivered ++ c ∷ []) cs written closed
get-Kept {delivered} {c} {cs} has (kept lost e full) =
    kept lost
      (e
        ∙ ap (λ x. (delivered ++ x) ++ lost) has
        ∙ ap (λ x. x ++ lost) (sym (append_assoc delivered (c ∷ []) cs)))
      full

pub close-Kept :
    {delivered pending written : List Bytes} {closed : Bool} (linger_zero : Bool)
    → Kept delivered pending written closed
    → Kept delivered (if linger_zero then [] else pending) written true
close-Kept {delivered} {pending} true (kept lost e full) =
    kept (pending ++ lost) (e ∙ rw (append-nil, append_assoc)) (λ o. absurd cc)
close-Kept false (kept lost e full) = kept lost e (λ o. absurd cc)
