-- ===== src/Common/LinkedList/Ends.antt =====
-- What the two ends of a list of src/common/list.cc hold after an insertion.
use evisor.Prelude.{==_ne, ==_refl, arith, refl, ℕ, ◌<◌, ◌≡◌}
use evisor.Common.LinkedList.{LinkedList, front, push_front, push_back}

-- What was pushed to the front of a list is at its front.
pub front-push_front : (l : LinkedList) (k : ℕ) → l.nil < l.fresh → front (push_front l k) ≡ k
unfolding push_front
front-push_front l k h = rw (==_refl l.nil, ==_refl l.fresh) refl

-- Pushing to the back leaves the last node of the sentinel as it was: the second of two insertions
-- is linked behind the same node as the first, which is cut off.
pub back-push_back :
    (l : LinkedList) (k : ℕ) → l.nil < l.fresh → (push_back l k).prev l.nil ≡ l.prev l.nil
unfolding push_back
back-push_back l k h = rw (==_ne l.fresh l.nil (omega arith)) refl
