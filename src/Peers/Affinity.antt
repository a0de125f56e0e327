-- ===== src/Peers/Affinity.antt =====
-- The affinity key of a request (proxy/peer_affinity.go). gjson is a parameter, as are SHA-256 and
-- the bytes of a string; a body is the list of its bytes.
pub mod Turns
mod Tests
use omniswap.Prelude.{
  ℕ, ◌*◌, ◌%◌, ◌/◌, ◌^◌, not, String, Bool, true, false, ◌&&◌, Option, none, some, List, [], ◌∷◌,
  ◌++◌, if◌then◌else◌, length,
}
use omniswap.Prelude.Keys.{string_eq, ◌==◌}
use omniswap.Prelude.Int.{ℤ, pos, ltb_ℤ}
use omniswap.Prelude.Text.{Text, trim_space, is_empty}

-- What is used of gjson: the array of the messages, none if there is no array, and of a message its
-- role and the raw text of its content; the raw text of the prompt. What is missing is empty.
pub record Gjson (M : Type 0) : Type 0 where
  pub messages : List ℕ → Option (List M)
  pub role : M → String
  pub content : M → List ℕ
  pub prompt : List ℕ → List ℕ

-- The part of `affinityConfig` that the key depends on.
pub record KeyConfig : Type 0 where
  pub headers : List String
  pub min_body_bytes : ℤ
  pub key_completions : Bool

-- The loop over the messages: the content of the first one of a user, empty if there is none.
unfoldable pub first_user : {M : Type 0} → Gjson M → List M → List ℕ
first_user j [] = []
first_user j (msg ∷ msgs) =
    let rest = first_user j msgs in if j.role msg == "user" then j.content msg else rest

-- The byte of a number at a place, counted from the lowest.
abbrev byte_at : ℕ → ℕ → ℕ
byte_at n place = (n / 2 ^ (8 * place)) % 256

-- `binary.BigEndian.PutUint64`, before a seed.
abbrev pub with_length : List ℕ → List ℕ
with_length seed =
    let n = length seed % 2 ^ 64 in
    byte_at n 7
    ∷ byte_at n 6
    ∷ byte_at n 5
    ∷ byte_at n 4
    ∷ byte_at n 3
    ∷ byte_at n 2
    ∷ byte_at n 1
    ∷ byte_at n 0
    ∷ seed

-- What is hashed: the tag `u:`, `p:` or `h:`, and the rest.
abbrev pub tagged : ℕ → List ℕ → List ℕ
tagged letter bytes = letter ∷ 58 ∷ bytes

module _ {M : Type 0} (sha256 : List ℕ → String) (bytes_of : Text → List ℕ) (j : Gjson M) where
  -- The seed in the messages.
  unfoldable pub message_seed : List ℕ → List ℕ
  message_seed body = elim (j.messages body) [ none ↦ [] | some msgs ↦ first_user j msgs ]

  unfoldable pub affinity_key_from_body : List ℕ → Bool → String
  affinity_key_from_body [] key_completions = ""
  affinity_key_from_body (b ∷ bs) key_completions =
      let body : List ℕ = b ∷ bs in
      let seed = message_seed body in
      if not (is_empty seed)
      then sha256 (tagged 117 (with_length seed))
      else if key_completions && not (is_empty (j.prompt body))
      then sha256 (tagged 112 (with_length (j.prompt body)))
      else ""

  -- The loop over the configured headers: the key of the first one that is set.
  unfoldable pub header_key : (String → Text) → List String → Option String
  header_key header [] = none
  header_key header (h ∷ hs) =
      let rest = header_key header hs in
      let v = trim_space (header h) in
      if not (is_empty v) then some (sha256 (tagged 104 (bytes_of v))) else rest

  unfoldable pub affinity_key_from_request : KeyConfig → (String → Text) → List ℕ → String
  affinity_key_from_request a header body = elim (header_key header a.headers) [
    | some key ↦ key
    | none ↦
        if ltb_ℤ (pos (length body)) a.min_body_bytes
        then ""
        else affinity_key_from_body body a.key_completions
  ]
