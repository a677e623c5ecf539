-- ===== src/Queue/Order.antt =====
-- internal/queue/order.go: the comparison of keys and the three heaps over it. The heaps are
-- container/heap over a list; `pop` and `peek` return `none` where the source returns nil.
pub mod Laws
use stitch.Prelude.{
  ℕ, ◌+◌, Bool, not, String, Option, none, some, List, [], ◌∷◌, ltb, ◌==◌, if◌then◌else◌,
}
use stitch.Prelude.Int.{ℤ, pos, ltb_ℤ, eqb_ℤ}
use stitch.Queue.Heap
use stitch.Queue.Message.{Key, Message, key}

-- Whether `a` is delivered before `b`.
unfoldable pub less : Key → Key → Bool → Bool
less a b lifo =
    if not (eqb_ℤ a.priority b.priority)
    then ltb_ℤ b.priority a.priority
    else if lifo
    then ltb b.seq a.seq
    else ltb a.seq b.seq

-- A message to stand where an index is out of range.
abbrev pub no_message : Message
no_message = record {
  id = "";
  body = [];
  priority = pos 0;
  seq = 0;
  enqueued_at = 0;
  visible_at = 0;
  attempts = 0;
  dedup_key = "";
  lease_token = "";
  lease_expires = 0;
}

unfoldable pub ready_less : Bool → Message → Message → Bool
ready_less lifo m n = less (key m) (key n) lifo

unfoldable pub delayed_less : Bool → Message → Message → Bool
delayed_less lifo m n =
    if not (m.visible_at == n.visible_at)
    then ltb m.visible_at n.visible_at
    else less (key m) (key n) lifo

pub record LeaseEntry : Type 0 where
  pub id : String
  pub token : String
  pub expires_at : ℕ

abbrev pub no_lease : LeaseEntry
no_lease = record { id = ""; token = ""; expires_at = 0 }

unfoldable pub lease_less : LeaseEntry → LeaseEntry → Bool
lease_less e f = ltb e.expires_at f.expires_at

unfoldable pub ready_push : Bool → List Message → Message → List Message
ready_push lifo h m = Heap.push (ready_less lifo) no_message h m

unfoldable pub ready_pop : Bool → List Message → Option (Message × List Message)
ready_pop lifo [] = none
ready_pop lifo (x ∷ h) = some (Heap.pop (ready_less lifo) no_message (x ∷ h))

unfoldable pub delayed_push : Bool → List Message → Message → List Message
delayed_push lifo h m = Heap.push (delayed_less lifo) no_message h m

unfoldable pub delayed_pop : Bool → List Message → Message × List Message
delayed_pop lifo h = Heap.pop (delayed_less lifo) no_message h

abbrev pub peek {ℓ} : {A : Type ℓ} → List A → Option A
peek [] = none
peek (x ∷ h) = some x

unfoldable pub lease_push : List LeaseEntry → LeaseEntry → List LeaseEntry
lease_push h e = Heap.push lease_less no_lease h e

unfoldable pub lease_pop : List LeaseEntry → LeaseEntry × List LeaseEntry
lease_pop h = Heap.pop lease_less no_lease h
