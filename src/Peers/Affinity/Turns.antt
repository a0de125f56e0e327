-- ===== src/Peers/Affinity/Turns.antt =====
-- The turns of a conversation have one affinity key (proxy/peer_affinity.go).
use omniswap.Prelude.{
  ℕ, String, Bool, true, false, none, some, List, [], ◌∷◌, ◌++◌, ◌≡◌, ◌↔◌, refl, ◌∙◌, ap, arith,
  length, All,
}
use omniswap.Prelude.Keys.{string_eq, ◌==◌}
use omniswap.Prelude.Int.{pos, ltb_ℤ}
use omniswap.Prelude.Text.{Text, trim_space, is_empty}
use omniswap.Peers.Affinity.{
  Gjson, KeyConfig, first_user, with_length, tagged, message_seed, affinity_key_from_body,
  header_key, affinity_key_from_request,
}

-- The seed that is hashed for the first message of a user.
abbrev pub hashed_seed : List ℕ → List ℕ
hashed_seed seed = tagged 117 (with_length seed)

seed_of : List ℕ → List ℕ
seed_of (t ∷ c ∷ a ∷ b ∷ d ∷ e ∷ f ∷ g ∷ h ∷ i ∷ seed) = seed
seed_of _ = []

hashed_seed-inj : (s t : List ℕ) → hashed_seed s ≡ hashed_seed t → s ≡ t
unfolding seed_of
hashed_seed-inj s t e = ap seed_of e

module _ {M : Type 0} (j : Gjson M) where
  -- A request whose messages start with some that are not of a user, and go on with one of a user
  -- with the content `seed`, which is not empty; no configured header is set, and the body is not too
  -- small.
  pub record IsTurn (a : KeyConfig) (seed : List ℕ) (header : String → Text) (body : List ℕ)
      : Type 0 where
    pub unset : All (λ h. is_empty (trim_space (header h)) ≡ true) a.headers
    pub large : ltb_ℤ (pos (length body)) a.min_body_bytes ≡ false
    pub non_empty : is_empty body ≡ false
    pub before : List M
    pub user : M
    pub after : List M
    pub parsed : j.messages body ≡ some (before ++ user ∷ after)
    pub others : All (λ msg. (j.role msg == "user") ≡ false) before
    pub by_user : (j.role user == "user") ≡ true
    pub content : j.content user ≡ seed

  first_user-skip :
      (before : List M) (user : M) (after : List M)
      → All (λ msg. (j.role msg == "user") ≡ false) before
      → (j.role user == "user") ≡ true
      → first_user j (before ++ user ∷ after) ≡ j.content user
  unfolding first_user
  first_user-skip [] user after h u = rw u refl
  first_user-skip (msg ∷ before) user after h u = rw h.0 (first_user-skip before user after h.1 u)

  module _ (sha256 : List ℕ → String) (bytes_of : Text → List ℕ) where
    header_key-unset :
        (header : String → Text) (hs : List String)
        → All (λ h. is_empty (trim_space (header h)) ≡ true) hs
        → header_key sha256 bytes_of j header hs ≡ none
    unfolding header_key
    header_key-unset header [] h = refl
    header_key-unset header (x ∷ hs) h = rw h.0 (header_key-unset header hs h.1)

    body_key :
        (body seed : List ℕ) (completions : Bool)
        → is_empty body ≡ false
        → is_empty seed ≡ false
        → message_seed sha256 bytes_of j body ≡ seed
        → affinity_key_from_body sha256 bytes_of j body completions ≡ sha256 (hashed_seed seed)
    unfolding affinity_key_from_body
    body_key [] seed completions n s e = ground arith
    body_key (b ∷ bs) seed completions n s e = rw (e, s) refl

    message_seed-parsed :
        (body : List ℕ) (msgs : List M)
        → j.messages body ≡ some msgs
        → message_seed sha256 bytes_of j body ≡ first_user j msgs
    unfolding message_seed
    message_seed-parsed body msgs e = ground (arith, e)

    turn_key :
        (a : KeyConfig) (seed : List ℕ) (header : String → Text) (body : List ℕ)
        → is_empty seed ≡ false
        → IsTurn a seed header body
        → affinity_key_from_request sha256 bytes_of j a header body ≡ sha256 (hashed_seed seed)
    unfolding affinity_key_from_request
    turn_key a seed header body s t =
        let seeded : message_seed sha256 bytes_of j body ≡ seed =
          message_seed-parsed body (t.before ++ t.user ∷ t.after) t.parsed
          ∙ first_user-skip t.before t.user t.after t.others t.by_user
          ∙ t.content in
        ground (
          arith,
          header_key-unset header a.headers t.unset,
          t.large,
          body_key body seed a.key_completions t.non_empty s seeded,
        )

    -- Two requests, each with a first message of a user that has a content, without a configured
    -- header, and not too small, where the hash does not confuse the two seeds: they have the same
    -- affinity key exactly if these contents are the same. So neither a changed system prompt nor
    -- later turns move a conversation to another key.
    pub affinity_key_from_request-IsTurn :
        (a : KeyConfig) (seed seed' : List ℕ) (header header' : String → Text) (body body' : List ℕ)
        → is_empty seed ≡ false
        → is_empty seed' ≡ false
        → IsTurn a seed header body
        → IsTurn a seed' header' body'
        → (sha256 (hashed_seed seed) ≡ sha256 (hashed_seed seed')
            → hashed_seed seed ≡ hashed_seed seed')
        → affinity_key_from_request sha256 bytes_of j a header body
            ≡ affinity_key_from_request sha256 bytes_of j a header' body'
          ↔ seed ≡ seed'
    affinity_key_from_request-IsTurn a seed seed' header header' body body' s s' t t' apart =
        rw (turn_key a seed header body s t, turn_key a seed' header' body' s' t')
          (
            (λ same. hashed_seed-inj seed seed' (apart same)),
            (λ same. ap (λ (x : List ℕ). sha256 (hashed_seed x)) same),
          )
