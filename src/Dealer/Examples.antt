-- ===== src/Dealer/Examples.antt =====
-- A toy terminal and key generation, and the theorem about the dealer.
use frost_tools.Prelude.{
  ℕ, ◌≡◌, refl, true, false, String, none, some, List, [], ◌∷◌, Outcome, ok, err,
}
use frost_tools.Dealer.{
  Dealing, Args, Shares, invalid_min_signers, validate_inputs, ask, ask_config, args_config,
  request_inputs, check_shares, split_secret, trusted_dealer, deal, into_even_y, shares_into_even_y,
}
use frost_tools.Dealer.Deals.{Made, deal_lem}

abbrev read_one : List String → Outcome ℕ String × List String
read_one [] = (ok "", [])
read_one (line ∷ lines) = (ok line, lines)

-- The world is the lines that are still to be read.
abbrev toy : Dealing
toy = record {
  World = List String;
  IoError = ℕ;
  FrostError = ℕ;
  Identifier = ℕ;
  SecretShare = ℕ;
  PublicKeyPackage = ℕ;
  SigningKey = List ℕ;
  write_line = λ text lines. (ok tt, lines);
  read_line = read_one;
  trim = λ text. text;
  parse_u16 = λ text. some 3;
  decode_hex = λ text. some (7 ∷ []);
  deserialize = λ bytes. ok bytes;
  generate_with_dealer = λ max min lines. (ok ((1, 11) ∷ (2, 12) ∷ [], 5), lines);
  split = λ key max min lines. (ok ((1, 21) ∷ (2, 22) ∷ (3, 23) ∷ [], 6), lines);
  key_package = λ share. ok tt;
  is_redpallas = true;
  has_even_y = λ pkg. false;
  package_into_even_y = λ even pkg. pkg;
  share_into_even_y = λ even share. share;
}

abbrev flags : Args
flags = record { cli = false; threshold = 2; num_signers = 3; key = some "07" }

abbrev shares : Shares toy
shares = ((1, 21) ∷ (2, 22) ∷ (3, 23) ∷ [], 6)

dealt-ok : deal toy flags [] ≡ (ok shares, [])
unfolding deal request_inputs args_config validate_inputs trusted_dealer split_secret check_shares
    into_even_y shares_into_even_y
dealt-ok = refl

deal_lem_example : Made toy flags shares
deal_lem_example = deal_lem toy flags shares [] [] dealt-ok

-- The dealer that asks takes three answers.
asked :
    deal toy
      (record { cli = true; threshold = 0; num_signers = 0; key = none })
      ("3" ∷ "3" ∷ "07" ∷ "more" ∷ [])
    ≡ (ok shares, "more" ∷ [])
unfolding deal request_inputs ask_config ask validate_inputs trusted_dealer split_secret
    check_shares into_even_y shares_into_even_y
asked = refl

-- A threshold of one is refused.
refused :
    deal toy (record { cli = false; threshold = 1; num_signers = 3; key = none }) []
    ≡ (err invalid_min_signers, [])
unfolding deal request_inputs args_config validate_inputs
refused = refl
