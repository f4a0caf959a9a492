-- ===== src/Queue/Order.antt =====
-- The order of the queue and of the times of claims.
use mathlib.Core.List.{Memᴰ}
use mathlib.Core.Path.{subst}
use aizim.Prelude.{
  ◌≢◌, ℕ, ◌/◌, ◌%◌, ◌≤◌, ◌≡◌, sym, ap, ◌⊎◌, inl, inr, Bool, true, false, none, some, List, [], ◌∷◌,
  ltb, ◌==◌, Bool-cases, Option-cases, arith,
}
use aizim.Database.{PublicationQueueEntry}
use aizim.Queue.{first_where, text_before, micros}

first_where-none :
    (p : PublicationQueueEntry → Bool) (q : List PublicationQueueEntry) (x : PublicationQueueEntry)
    → first_where p q ≡ none
    → Memᴰ x q
    → p x ≡ false
unfolding first_where
first_where-none p [] x h m = elim m [ ]
first_where-none p (y ∷ q) x h (Memᴰ.head e) = elim (Bool-cases (p y)) [
  | inl t ↦ ground arith
  | inr f ↦ subst (λ z. p z ≡ false) (sym e) f
]
first_where-none p (y ∷ q) x h (Memᴰ.tail m) = elim (Bool-cases (p y)) [
  | inl t ↦ ground arith
  | inr f ↦ first_where-none p q x (ground arith) m
]

-- No row that meets the condition comes before the first one.
pub first_where-least :
    (p : PublicationQueueEntry → Bool) (q : List PublicationQueueEntry)
    (e x : PublicationQueueEntry)
    → first_where p q ≡ some e
    → Memᴰ x q
    → p x ≡ true
    → e.enqueue_sequence ≤ x.enqueue_sequence
unfolding first_where
first_where-least p [] e x h m t = elim m [ ]
first_where-least p (y ∷ q) e x h (Memᴰ.head i) t =
    let here = subst (λ z. p z ≡ true) i t in
    let same = ap (λ (z : PublicationQueueEntry). z.enqueue_sequence) i in
    elim (Option-cases (first_where p q)) [ inl n ↦ ground arith | inr (r, n) ↦ ground arith ]
first_where-least p (y ∷ q) e x h (Memᴰ.tail m) t = elim (Option-cases (first_where p q)) [
  | inl n ↦ let no = first_where-none p q x n m in ground arith
  | inr (r, n) ↦ let low = first_where-least p q r x n m t in ground arith
]

-- The order of the texts of two times is that of the times, where the seconds differ or where both
-- times have a part of a second or both have none.
pub text_before-ltb :
    (a b : ℕ)
    → (a / micros ≢ b / micros) ⊎ ((a % micros == 0) ≡ (b % micros == 0))
    → text_before a b ≡ ltb a b
unfolding text_before
text_before-ltb a b (inl n) = ground arith
text_before-ltb a b (inr h) = ground arith
