-- ===== src/Queue/Tests.antt =====
-- Times of claims, and the theorems at them.
use aizim.Prelude.{inr, ◌≡◌, refl, ltb}
use aizim.Queue.{text_before}
use aizim.Queue.Order.{text_before-ltb}

text_before-ltb_example : text_before 1500000 1700000 ≡ ltb 1500000 1700000
text_before-ltb_example = text_before-ltb 1500000 1700000 (inr refl)
