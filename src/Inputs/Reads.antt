-- ===== src/Inputs/Reads.antt =====
-- What the readers of the inputs return.
use frost_tools.Prelude.{
  ℕ, suc, ◌≤◌, ◌≡◌, refl, ap, some, false, String, List, [], ◌∷◌, length, get_elem?, EachAt,
  EachAt-nil, EachAt-cons, is_empty, if◌then◌else◌, ok, lift, arith,
}
use frost_tools.Prelude.Contracts.{Ensures, ensures_then, ensures_pure, ensures_lift, ensures_true}
use frost_tools.Api.{Bytes}
use frost_tools.Session.Suite.{Suite}
use frost_tools.Inputs.{Console, Reading, read_each, read_message, read_messages}
use frost_tools.Inputs.Dkg.{
  Readers, DkgConfig, validate_inputs, request_inputs, ask_number, from_frost, invalid_min_signers,
  invalid_max_signers, malformed_identifier,
}

module _ {Files : Type 0} (I : Console Files) where
  open I use {Terminal, Failure}

  -- What the reader gave for the path of this index.
  abbrev pub ReadAt : {A : Type 0} → (String → Reading I A) → List String → ℕ → A → Type 0
  ReadAt read paths j a =
      (path : String) × (get_elem? paths j ≡ some path)
      × ((s : Terminal) × (t : Terminal) × (read path s ≡ (ok a, t)))

  -- One value for each path, in the order of the paths.
  abbrev pub ReadAll : {A : Type 0} → (String → Reading I A) → List String → List A → Type 0
  ReadAll read paths xs = (length xs ≡ length paths) × EachAt (ReadAt read paths) xs

  pub read_each-ReadAll :
      {A : Type 0} (read : String → Reading I A) (paths : List String)
      → Ensures (λ s. Unit {0}) (read_each I read paths) (λ xs t. ReadAll read paths xs)
  unfolding read_each
  read_each-ReadAll read [] = ensures_pure [] (λ s p. (refl, EachAt-nil (ReadAt read [])))
  read_each-ReadAll {A} read (path ∷ paths) =
      ensures_then {Q = λ a t. (s : Terminal) × (t : Terminal) × (read path s ≡ (ok a, t))}
        (record { ensured = λ s p a t e. (s, t, e) })
        (λ a.
          ensures_then
            {Q = λ xs t.
              ((s : Terminal) × (t : Terminal) × (read path s ≡ (ok a, t))) × ReadAll read paths xs}
            (record {
              ensured = λ s h xs t e. (h, (read_each-ReadAll read paths).ensured s tt xs t e);
            })
            (λ xs. ensures_pure (a ∷ xs) (λ s h. (
              ap suc h.1.0,
              EachAt-cons (ReadAt read (path ∷ paths)) a xs (path, refl, h.0) h.1.1,
            ))))

  -- The messages to sign: one for each path, in their order, and a single one from the terminal if
  -- there is no path.
  abbrev pub Messages : Files → List String → List Bytes → Type 0
  Messages files paths ms =
      (length ms ≡ (if is_empty paths then 1 else length paths))
      × (is_empty paths ≡ false → ReadAll (read_message I files) paths ms)

  pub read_messages-Messages :
      (files : Files) (paths : List String)
      → Ensures (λ s. Unit {0}) (read_messages I files paths) (λ ms t. Messages files paths ms)
  unfolding read_messages
  read_messages-Messages files [] =
      ensures_then {Q = λ m t. Unit {0}} (ensures_true _)
        (λ m. ensures_pure (m ∷ []) (λ s p. (refl, λ e. cc)))
  read_messages-Messages files (path ∷ paths) = record {
    ensured = λ s p ms t e.
        let all = (read_each-ReadAll (read_message I files) (path ∷ paths)).ensured s tt ms t e in
        (all.0, λ h. all);
  }

  -- The numbers of signers that a DKG at the terminal accepts.
  module _ (C : Suite) (R : Readers C) where
    unfoldable pub Accepted : DkgConfig I C R → Type 0
    Accepted config = (2 ≤ config.min_signers) × (config.min_signers ≤ config.max_signers)

    validate_inputs_lem :
        (config : DkgConfig I C R) (u : Unit {0})
        → validate_inputs I C R config ≡ ok u
        → Accepted config
    unfolding validate_inputs Accepted
    validate_inputs_lem config u h = ground arith

    pub request_inputs-Accepted :
        Ensures (λ s. Unit {0}) (request_inputs I C R) (λ config t. Accepted config)
    unfolding request_inputs
    request_inputs-Accepted =
        ensures_then {Q = λ m t. Unit {0}}
          (ensures_true
            (ask_number I C R "The minimum number of signers: (2 or more)" invalid_min_signers))
          (λ min.
            ensures_then {Q = λ m t. Unit {0}}
              (ensures_true (ask_number I C R "The maximum number of signers:" invalid_max_signers))
              (λ max.
                ensures_then {Q = λ m t. Unit {0}}
                  (ensures_true (
                    ask_number I C R
                      "Your identifier (this should be an integer between 1 and 65535):"
                      malformed_identifier))
                  (λ number.
                    ensures_then {Q = λ m t. Unit {0}}
                      (ensures_true (lift (from_frost I C R (R.from_u16 number))))
                      (λ identifier.
                        let config : DkgConfig I C R = record {
                          min_signers = min;
                          max_signers = max;
                          identifier = identifier;
                        } in
                        ensures_then {Q = λ u t. Accepted config}
                          (ensures_lift (validate_inputs I C R config)
                            (λ t p u e. validate_inputs_lem config u e))
                          (λ u. ensures_pure config (λ t p. p))))))
