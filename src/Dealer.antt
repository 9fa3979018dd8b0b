-- ===== src/Dealer.antt =====
-- The trusted dealer: trusted_dealer/inputs.rs, trusted_dealer_keygen.rs, mod.rs and cli.rs.
use frost_tools.Prelude.{
  ℕ, ◌≡◌, refl, Bool, true, false, if◌then◌else◌, ltb, String, Option, none, some, List, [], ◌∷◌,
  Map, is_empty, Outcome, ok, err, panic, ok_or, bind, Method, ◌>>=◌, ◌>>◌, pure, lift,
}
pub mod Deals
mod Examples

-- The terminal, the text functions of the standard library and of hex, and frost-core. A world is all
-- that reading, writing and the random numbers change.
pub record Dealing : Type 1 where
  pub World : Type 0
  pub IoError : Type 0
  pub FrostError : Type 0
  pub Identifier : Type 0
  pub SecretShare : Type 0
  pub PublicKeyPackage : Type 0
  pub SigningKey : Type 0
  pub write_line : String → Method IoError World (Unit {0})
  pub read_line : Method IoError World String
  pub trim : String → String
  pub parse_u16 : String → Option ℕ
  pub decode_hex : String → Option (List ℕ)
  pub deserialize : List ℕ → Outcome FrostError SigningKey
  pub generate_with_dealer :
      ℕ → ℕ → Method FrostError World (Map Identifier SecretShare × PublicKeyPackage)
  pub split :
      SigningKey → ℕ → ℕ → Method FrostError World (Map Identifier SecretShare × PublicKeyPackage)
  -- `KeyPackage::try_from`, whose result is dropped.
  pub key_package : SecretShare → Outcome FrostError (Unit {0})
  -- Whether the ciphersuite is redpallas, and its conversions, given whether the Y coordinate is even.
  pub is_redpallas : Bool
  pub has_even_y : PublicKeyPackage → Bool
  pub package_into_even_y : Bool → PublicKeyPackage → PublicKeyPackage
  pub share_into_even_y : Bool → SecretShare → SecretShare

-- The fields that the inputs are read from.
pub record Args : Type 0 where
  pub cli : Bool
  pub threshold : ℕ
  pub num_signers : ℕ
  pub key : Option String

pub record DealerConfig : Type 0 where
  pub min_signers : ℕ
  pub max_signers : ℕ
  pub secret : List ℕ

-- What the boxed errors are made of.
pub data DealerError (I F : Type 0) : Type 0 where
  io_error : I → DealerError I F
  frost_error : F → DealerError I F
  invalid_min_signers : DealerError I F
  invalid_max_signers : DealerError I F
  malformed_signing_key : DealerError I F

unfoldable pub validate_inputs :
    {I F : Type 0} → DealerConfig → Outcome (DealerError I F) (Unit {0})
validate_inputs config =
    if ltb config.min_signers 2
    then err invalid_min_signers
    else if ltb config.max_signers 2
    then err invalid_max_signers
    else if ltb config.max_signers config.min_signers
    then err invalid_min_signers
    else ok tt

-- `?` at an error of another type.
abbrev pub raise : {E F A : Type 0} → (E → F) → Outcome E A → Outcome F A
raise f (ok a) = ok a
raise f (err e) = err (f e)
raise f panic = panic

abbrev pub raised : {E F S A : Type 0} → (E → F) → Method E S A → Method F S A
raised f m s = let (r, t) = m s in (raise f r, t)

module _ (D : Dealing) where
  open D use {World, IoError, FrostError, Identifier, SecretShare, PublicKeyPackage}

  abbrev pub Dealt : Type 0 → Type 0
  Dealt A = Method (DealerError IoError FrostError) World A

  -- A prompt and the trimmed line that answers it.
  unfoldable pub ask : String → Dealt String
  ask prompt = raised io_error (D.write_line prompt) >> raised io_error D.read_line >>= λ line.
      pure (D.trim line)

  unfoldable pub ask_config : Dealt DealerConfig
  ask_config = ask "The minimum number of signers: (2 or more)" >>= λ min.
      lift (ok_or (D.parse_u16 min) invalid_min_signers) >>= λ min_signers.
      ask "The maximum number of signers: " >>= λ max.
      lift (ok_or (D.parse_u16 max) invalid_max_signers) >>= λ max_signers.
      ask "Secret key (press enter to randomly generate a fresh one): " >>= λ text.
      lift (ok_or (D.decode_hex text) malformed_signing_key) >>= λ secret.
      pure (record { min_signers = min_signers; max_signers = max_signers; secret = secret })

  -- `unwrap_or("")`.
  abbrev pub or_blank : Option String → String
  or_blank none = ""
  or_blank (some text) = text

  unfoldable pub args_config : Args → Dealt DealerConfig
  args_config args =
      lift (ok_or (D.decode_hex (or_blank args.key)) malformed_signing_key) >>= λ secret.
      pure
        (record { min_signers = args.threshold; max_signers = args.num_signers; secret = secret })

  unfoldable pub request_inputs : Args → Dealt DealerConfig
  request_inputs args = (if args.cli then ask_config else args_config args) >>= λ config.
      lift (validate_inputs config) >>= λ u. pure config

  unfoldable pub check_shares : Map Identifier SecretShare → Outcome FrostError (Unit {0})
  check_shares [] = ok tt
  check_shares ((k, v) ∷ shares) = bind (D.key_package v) (λ u. check_shares shares)

  abbrev pub Shares : Type 0
  Shares = Map Identifier SecretShare × PublicKeyPackage

  unfoldable pub trusted_dealer_keygen : DealerConfig → Method FrostError World Shares
  trusted_dealer_keygen config =
      D.generate_with_dealer config.max_signers config.min_signers >>= λ made.
      lift (check_shares made.0) >>= λ u. pure made

  unfoldable pub split_secret : DealerConfig → Method FrostError World Shares
  split_secret config = lift (D.deserialize config.secret) >>= λ secret_key.
      D.split secret_key config.max_signers config.min_signers >>= λ made.
      lift (check_shares made.0) >>= λ u. pure made

  unfoldable pub shares_into_even_y : Bool → Map Identifier SecretShare → Map Identifier SecretShare
  shares_into_even_y is_even [] = []
  shares_into_even_y is_even ((i, s) ∷ shares) =
      (i, D.share_into_even_y is_even s) ∷ shares_into_even_y is_even shares

  -- `MaybeIntoEvenY`, whose default does nothing.
  unfoldable pub into_even_y : Shares → Shares
  into_even_y made =
      if D.is_redpallas
      then (
        shares_into_even_y (D.has_even_y made.1) made.0,
        D.package_into_even_y (D.has_even_y made.1) made.1,
      )
      else made

  unfoldable pub trusted_dealer : DealerConfig → Dealt Shares
  trusted_dealer config =
      raised frost_error
        (if is_empty config.secret then trusted_dealer_keygen config else split_secret config)
      >>= λ made. pure (into_even_y made)

  -- `cli` before it prints the shares.
  unfoldable pub deal : Args → Dealt Shares
  deal args = request_inputs args >>= λ config. trusted_dealer config
