-- ===== src/PeerAddress/Snapshot.antt =====
-- What a peer's `/v1/models` says of it (proxy/peeraddress.go): the decoded answer, and the snapshot
-- made of it. A time is a number. The decoding itself, of package `encoding/json`, gives the entries
-- or fails.
use omniswap.Prelude.{
  ℕ, Bool, true, not, ◌||◌, Option, none, some, List, [], ◌∷◌, ◌++◌, if◌then◌else◌, nat_beq,
  is_some,
}
use omniswap.Prelude.Dict.{Dict, lookup, insert}
use omniswap.Prelude.Int.{ℤ, pos, ltb_ℤ}
use omniswap.Prelude.Text.{Text, text_eq, is_empty, equal_fold}
use omniswap.PeerAddress.Grammar.{ModelModality}

-- `modelDims`
pub record ModelDims : Type 0 where
  pub n_ctx : ℤ
  pub n_ctx_train : ℤ
  pub weight_bytes : ℤ
  pub n_params : ℤ
  pub n_embd : ℤ
  pub n_layer : ℤ
  pub n_head_kv : ℤ
  pub n_embd_k_gqa : ℤ
  pub n_embd_v_gqa : ℤ
  pub cache_type_k : Text
  pub cache_type_v : Text

-- An entry of `modelsListPayload`; its `meta` has the fields of `modelDims`, with `size` for the
-- weights.
pub record Entry : Type 0 where
  pub id : Text
  pub aliases : List Text
  pub status : Option Text
  pub architecture : Option ModelModality
  pub meta : Option ModelDims

-- `peerLoadedSet`; a set is the list of its elements.
pub record PeerLoadedSet : Type 0 where
  pub order : List Text
  pub all : List Text
  pub served : List Text
  pub modalities : Dict Text ModelModality
  pub dims : Dict Text ModelDims
  pub fetched_at : ℕ

abbrev pub no_models : ℕ → PeerLoadedSet
no_models at = record {
  order = [];
  all = [];
  served = [];
  modalities = [];
  dims = [];
  fetched_at = at;
}

-- The part of `config.PeerConfig` that the code reads.
pub record PeerConfig : Type 0 where
  pub has_url : Bool
  pub models : List Text
  pub modalities : Dict Text ModelModality

-- The aliases that are not empty, after the id.
abbrev named : List Text → List Text
named [] = []
named (a ∷ aliases) = let rest = named aliases in if is_empty a then rest else a ∷ rest

unfoldable pub names_of : Entry → List Text
names_of m = m.id ∷ named m.aliases

unfoldable pub bind_all {ℓ} : {V : Type ℓ} → List Text → V → Dict Text V → Dict Text V
bind_all [] v dict = dict
bind_all (name ∷ names) v dict = bind_all names v (insert name v dict)

abbrev pub with_modality : Entry → Dict Text ModelModality → Dict Text ModelModality
with_modality m dict = elim m.architecture [
  | none ↦ dict
  | some sig ↦
      if not (is_empty sig.input) || not (is_empty sig.output)
      then bind_all (names_of m) sig dict
      else dict
]

abbrev pub with_dims : Entry → Dict Text ModelDims → Dict Text ModelDims
with_dims m dict = elim m.meta [
  | none ↦ dict
  | some dim ↦
      if ltb_ℤ (pos 0) dim.n_ctx_train || ltb_ℤ (pos 0) dim.weight_bytes
      then bind_all (names_of m) dim dict
      else dict
]

-- "loaded"
abbrev loaded_word : Text
loaded_word = 108 ∷ 111 ∷ 97 ∷ 100 ∷ 101 ∷ 100 ∷ []

module _ (same_fold : ℕ → ℕ → Bool) where
  abbrev pub is_resident : Entry → Bool
  is_resident m = elim m.status [
    | none ↦ true
    | some value ↦ equal_fold same_fold value loaded_word
  ]

  -- One entry of the loop of `parseLoadedModels`.
  unfoldable pub add_entry : Entry → PeerLoadedSet → PeerLoadedSet
  add_entry m set =
      let advertised = record set {
        served = set.served ++ names_of m;
        modalities = with_modality m set.modalities;
        dims = with_dims m set.dims;
      } in
      if is_empty m.id
      then set
      else if not (is_resident m)
      then advertised
      else record advertised { order = set.order ++ (m.id ∷ []); all = set.all ++ names_of m }

  unfoldable pub add_entries : List Entry → PeerLoadedSet → PeerLoadedSet
  add_entries [] set = set
  add_entries (m ∷ ms) set = add_entries ms (add_entry m set)

  -- `parseLoadedModels`; a body that does not decode is `none`.
  unfoldable pub parse_loaded_models : Option (List Entry) → ℕ → PeerLoadedSet
  parse_loaded_models none at = no_models at
  parse_loaded_models (some entries) at = add_entries entries (no_models at)

-- `withDeclaredModalities`
unfoldable pub declare : Dict Text ModelModality → Dict Text ModelModality → Dict Text ModelModality
declare [] dict = dict
declare ((id, d) ∷ declared) dict =
    declare declared (if is_some (lookup id dict) then dict else insert id d dict)

unfoldable pub with_declared_modalities : PeerLoadedSet → PeerConfig → PeerLoadedSet
with_declared_modalities set peer = record set {
  modalities = declare peer.modalities set.modalities;
}

-- What the request to a peer comes to: no answer, or a status and, if the body can be read, what it
-- decodes to.
pub data Reply : Type 0 where
  no_answer : Reply
  answer : ℕ → Option (Option (List Entry)) → Reply

-- `fetchPeerLoaded`
unfoldable pub fetch_peer_loaded : (ℕ → ℕ → Bool) → PeerConfig → Reply → ℕ → Option PeerLoadedSet
fetch_peer_loaded same_fold peer no_answer now = none
fetch_peer_loaded same_fold peer (answer code body) now =
    if not peer.has_url
    then none
    else if not (nat_beq code 200)
    then none
    else elim body [ none ↦ none | some decoded ↦ some (parse_loaded_models same_fold decoded now) ]
