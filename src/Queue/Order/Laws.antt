-- ===== src/Queue/Order/Laws.antt =====
-- The order of the comparisons of internal/queue/order.go.
use stitch.Prelude.{◌≡◌, ◌≢◌, Bool, true, false, arith}
use stitch.Queue.Message.{Key, key}
use stitch.Queue.Order.{less, ready_less, delayed_less, lease_less}
use stitch.Queue.Heap.Order.{StrictOrder}

less_asym : (a b : Key) (lifo : Bool) → less a b lifo ≡ true → less b a lifo ≡ false
unfolding less
less_asym a b true h = ground arith
less_asym a b false h = ground arith

less_trans :
    (a b c : Key) (lifo : Bool)
    → less b a lifo ≡ false
    → less c b lifo ≡ false
    → less c a lifo ≡ false
unfolding less
less_trans a b c true h k = ground arith
less_trans a b c false h k = ground arith

pub ready_less-StrictOrder : (lifo : Bool) → StrictOrder (ready_less lifo)
unfolding ready_less
ready_less-StrictOrder lifo = record {
  asym = λ a b. less_asym (key a) (key b) lifo;
  trans = λ a b c. less_trans (key a) (key b) (key c) lifo;
}

pub delayed_less-StrictOrder : (lifo : Bool) → StrictOrder (delayed_less lifo)
unfolding delayed_less
delayed_less-StrictOrder lifo = record {
  asym = λ a b h. ground (arith, less_asym (key a) (key b) lifo);
  trans = λ a b c h k. ground (arith, less_trans (key a) (key b) (key c) lifo);
}

pub lease_less-StrictOrder : StrictOrder lease_less
unfolding lease_less
lease_less-StrictOrder = record { asym = λ a b h. ground arith; trans = λ a b c h k. ground arith }

-- The comparison tells any two keys with different sequence numbers apart, whatever their
-- priorities and the mode.
pub less_total :
    (a b : Key) (lifo : Bool) → a.seq ≢ b.seq → less a b lifo ≡ false → less b a lifo ≡ true
unfolding less
less_total a b true n h = ground arith
less_total a b false n h = ground arith
