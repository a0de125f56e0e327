-- ===== src/Peers/Affinity/Tests.antt =====
-- The affinity key of small bodies, and its theorem at inputs that meet its hypotheses.
use omniswap.Prelude.{
  ℕ, ◌%◌, String, false, some, List, [], ◌∷◌, ◌≡◌, ◌↔◌, refl, nat_beq, if◌then◌else◌,
}
use omniswap.Prelude.Int.{pos}
use omniswap.Prelude.Text.{Text, trim_left, trim_right, is_space}
use omniswap.Peers.Affinity.{
  Gjson, KeyConfig, first_user, message_seed, affinity_key_from_body, header_key,
  affinity_key_from_request,
}
use omniswap.Peers.Affinity.Turns.{IsTurn, affinity_key_from_request-IsTurn}

-- Each byte is a message, the even ones of a user.
abbrev gjson : Gjson ℕ
gjson = record {
  messages = λ body. some body;
  role = λ msg. if nat_beq (msg % 2) 0 then "user" else "system";
  content = λ msg. msg ∷ [];
  prompt = λ body. [];
}

abbrev last : List ℕ → ℕ
last [] = 0
last (b ∷ []) = b
last (b ∷ c ∷ cs) = last (c ∷ cs)

abbrev sha256 : List ℕ → String
sha256 bytes = if nat_beq (last bytes) 4 then "four" else "other"

abbrev config : KeyConfig
config = record { headers = "session" ∷ []; min_body_bytes = pos 2; key_completions = false }

abbrev unset : String → Text
unset h = []

abbrev session : String → Text
session h = 32 ∷ 4 ∷ []

test_header : affinity_key_from_request sha256 (λ v. v) gjson config session (6 ∷ []) ≡ "four"
unfolding affinity_key_from_request header_key trim_left trim_right is_space
test_header = refl

test_small : affinity_key_from_request sha256 (λ v. v) gjson config unset (4 ∷ []) ≡ ""
unfolding affinity_key_from_request header_key trim_left trim_right
test_small = refl

test_no_user : affinity_key_from_request sha256 (λ v. v) gjson config unset (5 ∷ 7 ∷ []) ≡ ""
unfolding affinity_key_from_request affinity_key_from_body message_seed first_user header_key
    trim_left trim_right
test_no_user = refl

test_other : affinity_key_from_request sha256 (λ v. v) gjson config unset (6 ∷ 4 ∷ []) ≡ "other"
unfolding affinity_key_from_request affinity_key_from_body message_seed first_user header_key
    trim_left trim_right
test_other = refl

abbrev seed : List ℕ
seed = 4 ∷ []

-- A conversation, and a later turn of it with another system prompt.
abbrev first_turn : List ℕ
first_turn = 1 ∷ 4 ∷ []

abbrev later_turn : List ℕ
later_turn = 3 ∷ 5 ∷ 4 ∷ 7 ∷ 6 ∷ []

first_turn-IsTurn : IsTurn gjson config seed unset first_turn
unfolding trim_left trim_right
first_turn-IsTurn = record {
  unset = (refl, tt);
  large = refl;
  non_empty = refl;
  before = 1 ∷ [];
  user = 4;
  after = [];
  parsed = refl;
  others = (refl, tt);
  by_user = refl;
  content = refl;
}

later_turn-IsTurn : IsTurn gjson config seed unset later_turn
unfolding trim_left trim_right
later_turn-IsTurn = record {
  unset = (refl, tt);
  large = refl;
  non_empty = refl;
  before = 3 ∷ 5 ∷ [];
  user = 4;
  after = 7 ∷ 6 ∷ [];
  parsed = refl;
  others = (refl, (refl, tt));
  by_user = refl;
  content = refl;
}

affinity_key_from_request-IsTurn_example :
    affinity_key_from_request sha256 (λ v. v) gjson config unset first_turn
      ≡ affinity_key_from_request sha256 (λ v. v) gjson config unset later_turn
    ↔ seed ≡ seed
affinity_key_from_request-IsTurn_example =
    affinity_key_from_request-IsTurn gjson sha256 (λ v. v) config seed seed unset unset first_turn
      later_turn refl refl first_turn-IsTurn later_turn-IsTurn (λ same. refl)
