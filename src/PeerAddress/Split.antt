-- ===== src/PeerAddress/Split.antt =====
-- The split of an address at its '@' (proxy/peeraddress.go).
use omniswap.Prelude.{ℕ, suc, ◌+◌, ◌≤◌, true, false, [], ◌∷◌, ◌++◌, ◌≡◌, ◌↔◌, refl, ap, ◌∙◌, arith}
use omniswap.Prelude.Text.{
  Text, is_space, trim_left, trim_right, trim_space, count_of, before, after,
}
use omniswap.PeerAddress.Grammar.{failed, ok, bad_request, at_sign, split_address}
use omniswap.Prelude.Trim.{
  trim_left-++, trim_right-++, trim_space-trim_left, trim_space-trim_right, count_of-trim_left,
  count_of-trim_right, count_of-trim_space,
}

at_sign_kept : is_space at_sign ≡ false
unfolding is_space
at_sign_kept = refl

pub count_of-++ : (r : ℕ) (xs ys : Text) → count_of r (xs ++ ys) ≡ count_of r xs + count_of r ys
unfolding count_of
count_of-++ r [] ys = omega arith
count_of-++ r (x ∷ xs) ys = ground (arith, count_of-++ r xs ys)

pub before-++ : (r : ℕ) (xs ys : Text) → count_of r xs ≡ 0 → before r (xs ++ (r ∷ ys)) ≡ xs
unfolding before count_of
before-++ r [] ys h = ground arith
before-++ r (x ∷ xs) ys h = ground (arith, before-++ r xs ys)

pub after-++ : (r : ℕ) (xs ys : Text) → count_of r xs ≡ 0 → after r (xs ++ (r ∷ ys)) ≡ ys
unfolding after count_of
after-++ r [] ys h = ground arith
after-++ r (x ∷ xs) ys h = ground (arith, after-++ r xs ys)

count_of_self : (r : ℕ) (ys : Text) → count_of r (r ∷ ys) ≡ suc (count_of r ys)
unfolding count_of
count_of_self r ys = ground arith

-- A model and a node without '@' that are joined by one are split again, less the spaces around
-- them, whatever they are, empty ones too.
pub split_address-join :
    (model node : Text)
    → count_of at_sign model ≡ 0
    → count_of at_sign node ≡ 0
    → split_address (model ++ (at_sign ∷ node))
      ≡ ok (record { model = trim_space model; node = trim_space node; has_at = true })
unfolding split_address
split_address-join model node h k =
    let s : trim_space (model ++ (at_sign ∷ node))
        ≡ trim_left model ++ (at_sign ∷ trim_right node) =
      ap trim_right (trim_left-++ model at_sign node at_sign_kept)
      ∙ trim_right-++ (trim_left model) at_sign node at_sign_kept in
    let none_left : count_of at_sign (trim_left model) ≡ 0 =
      count_of-trim_left at_sign model at_sign_kept ∙ h in
    let none_right : count_of at_sign (trim_right node) ≡ 0 =
      count_of-trim_right at_sign node at_sign_kept ∙ k in
    let one : count_of at_sign (trim_left model ++ (at_sign ∷ trim_right node)) ≡ 1 = omega (
      arith,
      count_of-++ at_sign (trim_left model) (at_sign ∷ trim_right node),
      count_of_self at_sign (trim_right node),
    ) in
    rw
      (
        s,
        one,
        before-++ at_sign (trim_left model) (trim_right node) none_left,
        after-++ at_sign (trim_left model) (trim_right node) none_left,
        trim_space-trim_left model,
        trim_space-trim_right node,
      )
      refl

-- An address is refused, with the code 400, exactly if it has two '@' or more.
pub split_address-failed :
    (raw : Text) → (split_address raw ≡ failed bad_request) ↔ (2 ≤ count_of at_sign raw)
unfolding split_address
split_address-failed raw = ground (arith, count_of-trim_space at_sign raw at_sign_kept)
