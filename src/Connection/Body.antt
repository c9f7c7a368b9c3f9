-- ===== src/Connection/Body.antt =====
-- `readRemainingHttpBodyImpl` of tcpconnection.cpp: the part of a message's body that did not come
-- with its headers.
pub mod Whole
use nipovpn.Base.{
  ℕ, zero, suc, ◌+◌, ◌-◌, Bool, true, false, not, ◌||◌, Option, none, some, [], ◌∷◌, ◌++◌, Bytes,
  codes, equal, length, drop, ltb, if◌then◌else◌,
}
use nipovpn.Text.{find, is_some}
use nipovpn.HttpUtils.{header_end, extract_headers, extract_body, parse_content_length, is_chunked}
use nipovpn.Env.{Env, Read, got, failed, Stream}

-- The bytes that were missing, or `none` after an error.
abbrev pub missing_read :
    {W : Type 0}
    → Bytes
    → Read × W
    → (Bytes → W → Option (Option Bytes × W))
    → Option (Option Bytes × W)
missing_read have (failed error, w) again = some (none, w)
missing_read have (got bytes, w) again = again (have ++ bytes) w

-- One read of a chunked body: `false`, or the rest of the loop.
abbrev pub chunk_read :
    {W : Type 0}
    → Bytes
    → Read × W
    → (Bytes → W → Option (Bool × Bytes × W))
    → Option (Bool × Bytes × W)
chunk_read buffer (failed error, w) again = some (false, buffer, w)
chunk_read buffer (got bytes, w) again = again (buffer ++ bytes) w

module _ (e : Env) (stream : Stream) where
  -- `while (total < tmp.size())`; `none` means that the fuel ran out.
  unfoldable pub read_missing : ℕ → ℕ → Bytes → e.World → Option (Option Bytes × e.World)
  read_missing zero size have w = none
  read_missing (suc fuel) size have w = elim (ltb (length have) size) [
    | true ↦
        missing_read have (e.read_some stream (size - length have) w)
          (λ have' w'. read_missing fuel size have' w')
    | false ↦ some (some have, w)
  ]

  abbrev pub last_chunk_in : Bytes → Bool
  last_chunk_in body = is_some (find (codes "\r\n0\r\n\r\n") body) || equal body (codes "0\r\n\r\n")

  -- `for (;;)`
  unfoldable pub read_chunks : ℕ → Bytes → e.World → Option (Bool × Bytes × e.World)
  read_chunks zero buffer w = none
  read_chunks (suc fuel) buffer w = elim (find header_end buffer) [
    | none ↦ some (false, buffer, w)
    | some i ↦ elim (last_chunk_in (drop (i + 4) buffer)) [
      | true ↦ some (true, buffer, w)
      | false ↦
          chunk_read buffer (e.read_some stream 4096 w) (λ buffer' w'. read_chunks fuel buffer' w')
    ]
  ]

  abbrev pub with_missing :
      Bytes → Option (Option Bytes × e.World) → Option (Bool × Bytes × e.World)
  with_missing buffer none = none
  with_missing buffer (some (none, w)) = some (false, buffer, w)
  with_missing buffer (some (some bytes, w)) = some (true, buffer ++ bytes, w)

  abbrev pub read_announced : Bytes → ℕ → e.World → Option (Bool × Bytes × e.World)
  read_announced buffer size w =
      let have = length (extract_body buffer) in
      if ltb have size
      then with_missing buffer (read_missing (suc (size - have)) (size - have) [] w)
      else some (true, buffer, w)

  abbrev pub read_by : ℕ → Bytes → e.World → Option ℕ → Option (Bool × Bytes × e.World)
  read_by fuel buffer w (some size) = read_announced buffer size w
  read_by fuel buffer w none =
      if is_chunked (extract_headers buffer)
      then read_chunks fuel buffer w
      else some (true, buffer, w)

  -- readRemainingHttpBody: its result and the buffer. The fuel bounds the reads of a chunked body, and
  -- those of a body of announced length have fuel for each byte that is missing.
  unfoldable pub read_remaining : ℕ → Bytes → e.World → Option (Bool × Bytes × e.World)
  read_remaining fuel buffer w =
      read_by fuel buffer w (parse_content_length (extract_headers buffer))
