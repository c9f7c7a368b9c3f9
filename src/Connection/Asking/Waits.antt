-- ===== src/Connection/Asking/Waits.antt =====
-- The waits for the next poll among the operations that are under way at the agent.
use nipovpn.Base.{nothing, ℕ, ◌+◌, ◌≡◌, refl, Bool, true, false, List, [], ◌∷◌, ◌++◌, arith}
use nipovpn.Connection.Asking.{Started, poll_wait}

abbrev pub flag : Bool → ℕ
flag false = 0
flag true = 1

-- The waits for the next poll among the operations that are under way.
abbrev pub wait : Started → ℕ
wait poll_wait = 1
wait _ = 0

abbrev pub waits : List Started → ℕ
waits [] = 0
waits (op ∷ ops) = wait op + waits ops

pub waits-append : (xs ys : List Started) → waits (xs ++ ys) ≡ waits xs + waits ys
waits-append [] ys = omega arith
waits-append (x ∷ xs) ys = rw (waits-append xs ys) (omega arith)

pub waits-split :
    (before after new : List Started)
    → waits (before ++ (after ++ new)) ≡ waits before + (waits after + waits new)
waits-split before after new = rw (waits-append before (after ++ new), waits-append after new) refl

-- One wait at least is an operation at least.
pub nothing-waits : (ops : List Started) → waits ops ≡ 1 → nothing ops ≡ false
nothing-waits [] h = ground arith
nothing-waits (op ∷ ops) h = refl
