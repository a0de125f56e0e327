-- ===== src/PeerAddress/Tests.antt =====
-- Tests and witnesses of the addresses.
use omniswap.Prelude.{true, none, some, [], ◌∷◌, ◌++◌, ◌≡◌, refl, nat_beq}
use omniswap.Prelude.Text.{
  Text, text_eq, is_space, trim_left, trim_right, count_of, before, after, equal_fold,
}
use omniswap.PeerAddress.Grammar.{
  ok, at_sign, split_address, ModelModality, modality_satisfies, contains_all_fold, has_fold,
}
use omniswap.PeerAddress.Capability.{IsToken}
use omniswap.PeerAddress.Snapshot.{Entry, PeerLoadedSet, no_models, no_answer}
use omniswap.PeerAddress.Cache.{PeerProxy, World}
use omniswap.PeerAddress.Resolve.{resolve_address}
use omniswap.PeerAddress.Resolve.Pick.{IsCapable}
use omniswap.PeerAddress.Resolve.Sound.{IsJustified, resolve_address-IsJustified}

-- "m" and "n"; "text", "image".
abbrev m_name : Text
m_name = 109 ∷ []

abbrev n_name : Text
n_name = 110 ∷ []

abbrev text_word : Text
text_word = 116 ∷ 101 ∷ 120 ∷ 116 ∷ []

abbrev image_word : Text
image_word = 105 ∷ 109 ∷ 97 ∷ 103 ∷ 101 ∷ []

-- " m @n"
test_split :
    split_address (32 ∷ 109 ∷ 32 ∷ 64 ∷ 110 ∷ [])
    ≡ ok (record { model = m_name; node = n_name; has_at = true })
unfolding split_address trim_left trim_right is_space count_of before after
test_split = refl

text_word-IsToken : IsToken text_word
unfolding trim_left trim_right is_space count_of
text_word-IsToken = record { nonempty = refl; no_comma = refl; no_bracket = refl; trimmed = refl }

image_word-IsToken : IsToken image_word
unfolding trim_left trim_right is_space count_of
image_word-IsToken = record { nonempty = refl; no_comma = refl; no_bracket = refl; trimmed = refl }

-- A model that is loaded and sees, and one that is not.
abbrev vision : ModelModality
vision = record { input = text_word ∷ image_word ∷ []; output = text_word ∷ [] }

abbrev two_models : PeerLoadedSet
two_models = record (no_models 0) {
  order = n_name ∷ [];
  all = n_name ∷ [];
  served = m_name ∷ n_name ∷ [];
  modalities = (m_name, vision) ∷ (n_name, vision) ∷ [];
}

n_name-IsCapable : IsCapable nat_beq (image_word ∷ []) [] two_models.modalities n_name
unfolding modality_satisfies contains_all_fold has_fold equal_fold
n_name-IsCapable = (vision, refl, refl)

abbrev one_peer : PeerProxy
one_peer = record {
  peers = (n_name, record { has_url = true; models = m_name ∷ []; modalities = [] }) ∷ [];
  peer_order = n_name ∷ [];
  loaded_cache = [];
  loaded_ttl = 10;
}

abbrev silent : World
silent = record { same_fold = nat_beq; now = 0; reply = λ id. no_answer }

resolve_address-IsJustified_example :
    IsJustified (resolve_address silent (λ c. c) (m_name ++ (at_sign ∷ n_name)) one_peer)
resolve_address-IsJustified_example =
    resolve_address-IsJustified silent (λ c. c) (m_name ++ (at_sign ∷ n_name)) one_peer
      ((record { has_url = true; models = m_name ∷ []; modalities = [] }, refl), tt)

abbrev one_entry : Entry
one_entry = record {
  id = m_name;
  aliases = n_name ∷ [] ∷ [];
  status = none;
  architecture = some vision;
  meta = none;
}
