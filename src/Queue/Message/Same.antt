-- ===== src/Queue/Message/Same.antt =====
-- A test for equal messages, for the counting of messages in Queue/Invariant.antt.
use stitch.Prelude.{
  ℕ, ◌≡◌, refl, Bool, true, false, ◌&&◌, List, [], ◌∷◌, ◌==◌, str_eq, eq_iff, arith,
}
use stitch.Prelude.Int.{eqb_ℤ, eq_of_parts}
use stitch.Queue.Message.{Message}

abbrev same_list : List ℕ → List ℕ → Bool
same_list [] [] = true
same_list [] (y ∷ ys) = false
same_list (x ∷ xs) [] = false
same_list (x ∷ xs) (y ∷ ys) = (x == y) && same_list xs ys

same_list_sound : (xs ys : List ℕ) → same_list xs ys ≡ true → xs ≡ ys
same_list_sound [] [] h = refl
same_list_sound [] (y ∷ ys) h = absurd (ground arith)
same_list_sound (x ∷ xs) [] h = absurd (ground arith)
same_list_sound (x ∷ xs) (y ∷ ys) h = ground (arith, same_list_sound xs ys)

same_list_refl : (xs : List ℕ) → same_list xs xs ≡ true
same_list_refl [] = refl
same_list_refl (x ∷ xs) = ground (arith, same_list_refl xs)

unfoldable pub same_message : Message → Message → Bool
same_message a b =
    str_eq a.id b.id
    && same_list a.body b.body
    && eqb_ℤ a.priority b.priority
    && (a.seq == b.seq)
    && (a.enqueued_at == b.enqueued_at)
    && (a.visible_at == b.visible_at)
    && (a.attempts == b.attempts)
    && str_eq a.dedup_key b.dedup_key
    && str_eq a.lease_token b.lease_token
    && (a.lease_expires == b.lease_expires)

message_ext :
    (a b : Message)
    → a.id ≡ b.id
    → a.body ≡ b.body
    → a.priority ≡ b.priority
    → a.seq ≡ b.seq
    → a.enqueued_at ≡ b.enqueued_at
    → a.visible_at ≡ b.visible_at
    → a.attempts ≡ b.attempts
    → a.dedup_key ≡ b.dedup_key
    → a.lease_token ≡ b.lease_token
    → a.lease_expires ≡ b.lease_expires
    → a ≡ b
message_ext a b p1 p2 p3 p4 p5 p6 p7 p8 p9 p10 = λ i. record {
  id = p1 i;
  body = p2 i;
  priority = p3 i;
  seq = p4 i;
  enqueued_at = p5 i;
  visible_at = p6 i;
  attempts = p7 i;
  dedup_key = p8 i;
  lease_token = p9 i;
  lease_expires = p10 i;
}

pub same_message_sound : (a b : Message) → same_message a b ≡ true → a ≡ b
unfolding same_message
same_message_sound a b h =
    message_ext a b ((eq_iff a.id b.id).0 (ground arith))
      (same_list_sound a.body b.body (ground arith))
      (eq_of_parts a.priority b.priority (ground arith)) (ground arith) (ground arith)
      (ground arith) (ground arith) ((eq_iff a.dedup_key b.dedup_key).0 (ground arith))
      ((eq_iff a.lease_token b.lease_token).0 (ground arith)) (ground arith)

pub same_message_refl : (a : Message) → same_message a a ≡ true
unfolding same_message
same_message_refl a = ground (
  arith,
  (eq_iff a.id a.id).1 refl,
  same_list_refl a.body,
  (eq_iff a.dedup_key a.dedup_key).1 refl,
  (eq_iff a.lease_token a.lease_token).1 refl,
)
