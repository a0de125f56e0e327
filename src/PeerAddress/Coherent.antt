-- ===== src/PeerAddress/Coherent.antt =====
-- How the parts of a snapshot hang together (proxy/peeraddress.go).
use omniswap.Prelude.{
  ℕ, Bool, true, not, ◌||◌, Option, none, some, List, [], ◌∷◌, ◌++◌, ◌≡◌, refl, arith, Bool-cases,
  Option-cases, inl, inr, is_some,
}
use omniswap.Prelude.Dict.{Dict, lookup, insert, lookup-insert}
use omniswap.Prelude.Int.{ltb_ℤ, pos}
use omniswap.Prelude.Text.{Text, text_eq, text_beq_iff, is_empty, contains}
use omniswap.PeerAddress.Grammar.{ModelModality}
use omniswap.PeerAddress.Snapshot.{
  Entry, ModelDims, PeerLoadedSet, no_models, names_of, bind_all, add_entry, add_entries,
  parse_loaded_models, is_resident, with_modality, with_dims,
}

-- Every element of the one list is in the other, and every key of a dictionary in a list.
abbrev pub Within : List Text → List Text → Type 0
Within xs ys = (x : Text) → (not (contains x xs) || contains x ys) ≡ true

abbrev pub KeysWithin {ℓ} : {V : Type ℓ} → Dict Text V → List Text → Type 0
KeysWithin dict ys = (x : Text) → (not (is_some (lookup x dict)) || contains x ys) ≡ true

-- What is loaded is served, in the order and under its aliases, and so is what has a signature or
-- dimensions.
pub record IsCoherent (set : PeerLoadedSet) : Type 0 where
  pub order_in : Within set.order set.all
  pub all_in : Within set.all set.served
  pub modalities_in : KeysWithin set.modalities set.served
  pub dims_in : KeysWithin set.dims set.served

contains-++ :
    (x : Text) (xs ys : List Text) → contains x (xs ++ ys) ≡ (contains x xs || contains x ys)
unfolding contains
contains-++ x [] ys = refl
contains-++ x (z ∷ xs) ys = ground (arith, contains-++ x xs ys)

Within-++ : (xs ys zs : List Text) → Within xs ys → Within (xs ++ zs) (ys ++ zs)
Within-++ xs ys zs h x = ground (arith, h x, contains-++ x xs zs, contains-++ x ys zs)

Within-append : (xs ys zs : List Text) → Within xs ys → Within xs (ys ++ zs)
Within-append xs ys zs h x = ground (arith, h x, contains-++ x ys zs)

bind_all-KeysWithin {ℓ} :
    {V : Type ℓ} (names : List Text) (v : V) (dict : Dict Text V) (ys : List Text)
    → KeysWithin dict ys
    → Within names ys
    → KeysWithin (bind_all names v dict) ys
unfolding bind_all contains
bind_all-KeysWithin [] v dict ys h k = h
bind_all-KeysWithin (name ∷ names) v dict ys h k =
    bind_all-KeysWithin names v (insert name v dict) ys
      (λ x. ground (arith, h x, k x, lookup-insert name x v dict, text_beq_iff name x))
      (λ x. ground (arith, k x))

KeysWithin-append {ℓ} :
    {V : Type ℓ} (dict : Dict Text V) (ys zs : List Text)
    → KeysWithin dict ys
    → KeysWithin dict (ys ++ zs)
KeysWithin-append dict ys zs h x = ground (arith, h x, contains-++ x ys zs)

append-Within : (ys zs : List Text) → Within zs (ys ++ zs)
append-Within ys zs x = ground (arith, contains-++ x ys zs)

with_modality-KeysWithin :
    (m : Entry) (dict : Dict Text ModelModality) (ys : List Text)
    → KeysWithin dict ys
    → KeysWithin (with_modality m dict) (ys ++ names_of m)
unfolding names_of
with_modality-KeysWithin m dict ys h =
    let kept = KeysWithin-append dict ys (names_of m) h in
    elim (Option-cases m.architecture) [
      | inl e ↦ rw e kept
      | inr (sig, e) ↦ elim (Bool-cases (not (is_empty sig.input) || not (is_empty sig.output))) [
        | inl k ↦
            rw (e, k)
              (bind_all-KeysWithin (names_of m) sig dict (ys ++ names_of m) kept
                (append-Within ys (names_of m)))
        | inr k ↦ rw (e, k) kept
      ]
    ]

with_dims-KeysWithin :
    (m : Entry) (dict : Dict Text ModelDims) (ys : List Text)
    → KeysWithin dict ys
    → KeysWithin (with_dims m dict) (ys ++ names_of m)
unfolding names_of
with_dims-KeysWithin m dict ys h =
    let kept = KeysWithin-append dict ys (names_of m) h in
    elim (Option-cases m.meta) [
      | inl e ↦ rw e kept
      | inr (dim, e) ↦
          elim (Bool-cases (ltb_ℤ (pos 0) dim.n_ctx_train || ltb_ℤ (pos 0) dim.weight_bytes)) [
            | inl k ↦
                rw (e, k)
                  (bind_all-KeysWithin (names_of m) dim dict (ys ++ names_of m) kept
                    (append-Within ys (names_of m)))
            | inr k ↦ rw (e, k) kept
          ]
    ]

id_first : (m : Entry) → Within (m.id ∷ []) (names_of m)
unfolding names_of contains
id_first m x = ground arith

Within-++_both :
    (xs ys us vs : List Text) → Within xs ys → Within us vs → Within (xs ++ us) (ys ++ vs)
Within-++_both xs ys us vs h k x =
    ground (arith, h x, k x, contains-++ x xs us, contains-++ x ys vs)

module _ (same_fold : ℕ → ℕ → Bool) where
  add_entry-IsCoherent :
      (m : Entry) (set : PeerLoadedSet) → IsCoherent set → IsCoherent (add_entry same_fold m set)
  unfolding add_entry
  add_entry-IsCoherent m set c =
      let names = names_of m in
      let advertised = with_modality-KeysWithin m set.modalities set.served c.modalities_in in
      let sized = with_dims-KeysWithin m set.dims set.served c.dims_in in
      elim (Bool-cases (is_empty m.id)) [
        | inl e ↦ rw (e, add_entry) c
        | inr e ↦ elim (Bool-cases (is_resident same_fold m)) [
          | inl k ↦
              rw (e, k, add_entry)
                (record {
                  order_in =
                      Within-++_both set.order set.all (m.id ∷ []) names c.order_in (id_first m);
                  all_in = Within-++ set.all set.served names c.all_in;
                  modalities_in = advertised;
                  dims_in = sized;
                })
          | inr k ↦
              rw (e, k, add_entry)
                (record {
                  order_in = c.order_in;
                  all_in = Within-append set.all set.served names c.all_in;
                  modalities_in = advertised;
                  dims_in = sized;
                })
        ]
      ]

  add_entries-IsCoherent :
      (ms : List Entry) (set : PeerLoadedSet)
      → IsCoherent set
      → IsCoherent (add_entries same_fold ms set)
  unfolding add_entries
  add_entries-IsCoherent [] set c = c
  add_entries-IsCoherent (m ∷ ms) set c =
      add_entries-IsCoherent ms (add_entry same_fold m set) (add_entry-IsCoherent m set c)

  no_models-IsCoherent : (at : ℕ) → IsCoherent (no_models at)
  unfolding contains
  no_models-IsCoherent at = record {
    order_in = λ x. refl;
    all_in = λ x. refl;
    modalities_in = λ x. refl;
    dims_in = λ x. refl;
  }

  -- In what is read of any answer of a peer, the order lists names that are loaded, what is loaded
  -- is served, under its id and its aliases, and only what is served has a signature or dimensions.
  pub parse_loaded_models-IsCoherent :
      (decoded : Option (List Entry)) (at : ℕ)
      → IsCoherent (parse_loaded_models same_fold decoded at)
  unfolding parse_loaded_models
  parse_loaded_models-IsCoherent none at = no_models-IsCoherent at
  parse_loaded_models-IsCoherent (some entries) at =
      add_entries-IsCoherent entries (no_models at) (no_models-IsCoherent at)
