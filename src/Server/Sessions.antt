-- ===== src/Server/Sessions.antt =====
-- `sessions_`, the map from session names to the connections to their targets, as an association
-- list. A client is held by the map alone, so what a method does to it is put back under its name.
use nipovpn.Base.{
  Option, none, some, List, [], ◌∷◌, ◌≡◌, refl, Bytes, equal, equal_iff, if◌then◌else◌, arith,
}
use nipovpn.Client.Defs.{Client}

abbrev pub Sessions : Type 0
Sessions = List (Bytes × Client)

-- `sessions_.find(name)`
unfoldable pub lookup : Bytes → Sessions → Option Client
lookup k [] = none
lookup k ((j, c) ∷ m) = if equal j k then some c else lookup k m

-- `sessions_[name] = client`
unfoldable pub insert : Bytes → Client → Sessions → Sessions
insert k c [] = (k, c) ∷ []
insert k c ((j, d) ∷ m) = if equal j k then (k, c) ∷ m else (j, d) ∷ insert k c m

-- `sessions_.erase(it)`. A name stands once in the map; the list may hold it again.
unfoldable pub erase : Bytes → Sessions → Sessions
erase k [] = []
erase k ((j, c) ∷ m) = if equal j k then erase k m else (j, c) ∷ erase k m

pub lookup-insert :
    (k j : Bytes) (c : Client) (m : Sessions)
    → lookup j (insert k c m) ≡ (if equal k j then some c else lookup j m)
unfolding lookup insert
lookup-insert k j c [] = refl
lookup-insert k j c ((i, d) ∷ m) = ground (
  arith,
  equal_iff {s = k} {t = j},
  equal_iff {s = i} {t = k},
  equal_iff {s = i} {t = j},
  lookup-insert k j c m,
)

pub lookup-erase :
    (k j : Bytes) (m : Sessions) → lookup j (erase k m) ≡ (if equal k j then none else lookup j m)
unfolding lookup erase
lookup-erase k j [] = ground arith
lookup-erase k j ((i, d) ∷ m) = ground (
  arith,
  equal_iff {s = k} {t = j},
  equal_iff {s = i} {t = k},
  equal_iff {s = i} {t = j},
  lookup-erase k j m,
)
