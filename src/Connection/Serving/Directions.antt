-- ===== src/Connection/Serving/Directions.antt =====
-- The two directions of a direct tunnel at the server, and which operations and events of a connection
-- belong to each.
use nipovpn.Base.{
  ℕ, ◌+◌, ◌≤◌, ◌≡◌, refl, sym, ◌∙◌, ap, Option, none, List, [], ◌∷◌, ◌++◌, append_assoc, Bytes,
  arith,
}
use nipovpn.Env.{NetError}
use nipovpn.Connection.Serving.{
  Started, request_read, response_write, agent_read, target_write, target_read, agent_write,
  Completed, request_arrived, response_written, agent_sent, target_sent,
}

-- From the agent to the target, or back.
pub data Direction : Type 0 where
  upward downward : Direction

-- The bytes that an operation writes in a direction, and those that an event read for it.
abbrev pub bytes_of : Direction → Started → Bytes
bytes_of upward (target_write bytes) = bytes
bytes_of downward (agent_write bytes) = bytes
bytes_of _ _ = []

abbrev pub bytes_in : Direction → Completed → Bytes
bytes_in upward (agent_sent bytes none) = bytes
bytes_in downward (target_sent bytes none) = bytes
bytes_in _ _ = []

abbrev pub written : Direction → List Started → Bytes
written d [] = []
written d (op ∷ ops) = bytes_of d op ++ written d ops

abbrev pub read : Direction → List Completed → Bytes
read d [] = []
read d (event ∷ events) = bytes_in d event ++ read d events

-- Whether an operation uses the buffer of a direction, or leads to one that does.
abbrev pub lane : Direction → Started → ℕ
lane d request_read = 1
lane d response_write = 1
lane upward agent_read = 1
lane upward (target_write bytes) = 1
lane downward target_read = 1
lane downward (agent_write bytes) = 1
lane _ _ = 0

abbrev pub load : Direction → List Started → ℕ
load d [] = 0
load d (op ∷ ops) = lane d op + load d ops

pub written-append :
    (d : Direction) (a b : List Started) → written d (a ++ b) ≡ written d a ++ written d b
written-append d [] b = refl
written-append d (op ∷ a) b =
    ap (◌++◌ (bytes_of d op)) (written-append d a b) ∙ sym (append_assoc (bytes_of d op) _ _)

pub read-append : (d : Direction) (a b : List Completed) → read d (a ++ b) ≡ read d a ++ read d b
read-append d [] b = refl
read-append d (event ∷ a) b =
    ap (◌++◌ (bytes_in d event)) (read-append d a b) ∙ sym (append_assoc (bytes_in d event) _ _)

pub load-append : (d : Direction) (a b : List Started) → load d (a ++ b) ≡ load d a + load d b
load-append d [] b = omega arith
load-append d (op ∷ a) b = omega (arith, load-append d a b)

pub bytes_in-request :
    (d : Direction) (bytes : Bytes) (error : Option NetError)
    → bytes_in d (request_arrived bytes error) ≡ []
bytes_in-request upward bytes error = refl
bytes_in-request downward bytes error = refl

pub bytes_in-response :
    (d : Direction) (error : Option NetError) → bytes_in d (response_written error) ≡ []
bytes_in-response upward error = refl
bytes_in-response downward error = refl

-- What a callback starts writes what its event read, and needs no more than the operation did.
abbrev pub Passes : Direction → Started → Completed → List Started → Type 0
Passes d op event ops = (written d ops ≡ bytes_in d event) × (load d ops ≤ lane d op)
