-- ===== src/Session/Dkg.antt =====
-- The session state of a DKG participant, `DKGSessionState`.
pub mod Echo
pub mod Agreement
use frost_tools.Prelude.{
  ℕ, ◌-◌, Bool, true, false, ◌&&◌, Option, none, some, List, [], ◌∷◌, PartialEq, ◌==◌, nat_eq, Map,
  get, insert, contains_key, keys, values, set_eq, set_insert, contains, or_default, all, length,
  ltb, if◌then◌else◌, Outcome, ok, err, panic, is_some,
}
use frost_tools.Api.{PublicKey, public_key_eq, Msg}
use frost_tools.Session.Suite.{
  Suite, SessionError, invalid_json, wrong_state, unknown_participant, own_broadcast,
  redundant_broadcast, package_not_found, broadcast_mismatch, duplicated_broadcast,
}

module _ (C : Suite) where
  open C use {Identifier, Round1Package, Round2Package}

  instance abbrev pub identifier_eq : PartialEq Identifier
  identifier_eq = C.identifier_eq

  instance abbrev pub package_eq : PartialEq Round1Package
  package_eq = C.round1_package_eq

  abbrev pub Pubkeys : Type 0
  Pubkeys = Map PublicKey Identifier

  abbrev pub Packages : Type 0
  Packages = Map Identifier Round1Package

  -- By original sender, then by the sender of the broadcast.
  abbrev pub Broadcasts : Type 0
  Broadcasts = Map Identifier Packages

  pub data State : Type 0 where
    waiting_for_round1_packages : Pubkeys → Packages → State
    waiting_for_round1_packages_broadcast : Pubkeys → Packages → Broadcasts → State
    waiting_for_round2_packages : Pubkeys → Packages → Map Identifier Round2Package → State
    round2_packages_ready : Pubkeys → Map Identifier Round2Package → State

  abbrev Step : Type 0
  Step = Outcome SessionError (Unit {0}) × State

  -- With two participants the echo broadcast is skipped. `pubkeys` is not empty here, so the
  -- subtraction does not wrap.
  abbrev pub round1_in : Pubkeys → Packages → State
  round1_in pubkeys r1 =
      if length r1 == length pubkeys - 1
      then (if ltb 2 (length pubkeys)
          then waiting_for_round1_packages_broadcast pubkeys r1 []
          else waiting_for_round2_packages pubkeys r1 [])
      else waiting_for_round1_packages pubkeys r1

  unfoldable pub handle_round1_package : PublicKey → Round1Package → State → Step
  handle_round1_package p pkg (waiting_for_round1_packages pubkeys r1) = elim (get pubkeys p) [
    | none ↦ (err unknown_participant, waiting_for_round1_packages pubkeys r1)
    | some id ↦ (ok tt, round1_in pubkeys (insert id pkg r1))
  ]
  handle_round1_package p pkg s = (panic, s)

  -- `Some(package) == round1_packages.get(original)`
  unfoldable pub is_original : Packages → Identifier → Round1Package → Bool
  is_original r1 original pkg = elim (get r1 original) [ none ↦ false | some q ↦ pkg == q ]

  -- The check of one original sender's map.
  unfoldable pub echoed : Packages → Identifier × Packages → Bool
  echoed r1 (original, m) =
      set_eq (set_insert original (keys m)) (keys r1) && all (is_original r1 original) (values m)

  unfoldable pub is_complete : Packages → Broadcasts → Bool
  is_complete r1 bs = set_eq (keys bs) (keys r1) && all (echoed r1) bs

  unfoldable pub record_echo : Identifier → Identifier → Round1Package → Broadcasts → Broadcasts
  record_echo original sender pkg bs =
      insert original (insert sender pkg (or_default (get bs original))) bs

  abbrev pub broadcast_in : Pubkeys → Packages → Broadcasts → State
  broadcast_in pubkeys r1 bs =
      if is_complete r1 bs
      then waiting_for_round2_packages pubkeys r1 []
      else waiting_for_round1_packages_broadcast pubkeys r1 bs

  -- The broadcast of a known sender: a duplicate is entered before it is refused.
  unfoldable pub take_broadcast :
      Pubkeys → Packages → Broadcasts → Identifier → Identifier → Round1Package → Step
  take_broadcast pubkeys r1 bs sender original pkg =
      let bs' = record_echo original sender pkg bs in
      elim (get (or_default (get bs original)) sender) [
        | some old ↦
            (err duplicated_broadcast, waiting_for_round1_packages_broadcast pubkeys r1 bs')
        | none ↦ (ok tt, broadcast_in pubkeys r1 bs')
      ]

  unfoldable pub check_broadcast :
      Pubkeys
      → Packages
      → Identifier
      → Identifier
      → Identifier
      → Round1Package
      → Outcome SessionError (Unit {0})
  check_broadcast pubkeys r1 self_identifier sender original pkg =
      if contains (values pubkeys) original
      then (if original == self_identifier
          then err own_broadcast
          else if original == sender
          then err redundant_broadcast
          else elim (get r1 original) [
            | none ↦ err package_not_found
            | some q ↦ if q == pkg then ok tt else err broadcast_mismatch
          ])
      else err unknown_participant

  unfoldable pub handle_round1_package_broadcast :
      PublicKey → Identifier → Identifier → Round1Package → State → Step
  handle_round1_package_broadcast p self_identifier original pkg
        (waiting_for_round1_packages_broadcast pubkeys r1 bs) =
      let s = waiting_for_round1_packages_broadcast pubkeys r1 bs in
      elim (get pubkeys p) [
        | none ↦ (err unknown_participant, s)
        | some sender ↦ elim (check_broadcast pubkeys r1 self_identifier sender original pkg) [
          | ok _ ↦ take_broadcast pubkeys r1 bs sender original pkg
          | err e ↦ (err e, s)
          | panic ↦ (panic, s)
        ]
      ]
  handle_round1_package_broadcast p self_identifier original pkg s = (panic, s)

  abbrev pub round2_in : Pubkeys → Packages → Map Identifier Round2Package → State
  round2_in pubkeys r1 r2 =
      if set_eq (keys r2) (keys r1)
      then round2_packages_ready pubkeys r2
      else waiting_for_round2_packages pubkeys r1 r2

  unfoldable pub handle_round2_package : PublicKey → Round2Package → State → Step
  handle_round2_package p pkg (waiting_for_round2_packages pubkeys r1 r2) =
      let s = waiting_for_round2_packages pubkeys r1 r2 in
      elim (get pubkeys p) [
        | none ↦ (err unknown_participant, s)
        | some id ↦
            if contains_key r1 id
            then (ok tt, round2_in pubkeys r1 (insert id pkg r2))
            else (err unknown_participant, s)
      ]
  handle_round2_package p pkg s = (panic, s)

  unfoldable pub recv : Identifier → Msg → State → Step
  unfolding handle_round1_package handle_round1_package_broadcast handle_round2_package
  recv self_identifier msg (waiting_for_round1_packages pubkeys r1) =
      let s = waiting_for_round1_packages pubkeys r1 in
      elim (C.read_round1_package msg.msg) [
        | none ↦ (err invalid_json, s)
        | some pkg ↦ handle_round1_package msg.sender pkg s
      ]
  recv self_identifier msg (waiting_for_round1_packages_broadcast pubkeys r1 bs) =
      let s = waiting_for_round1_packages_broadcast pubkeys r1 bs in
      elim (C.read_broadcast msg.msg) [
        | none ↦ (err invalid_json, s)
        | some (original, pkg) ↦
            handle_round1_package_broadcast msg.sender self_identifier original pkg s
      ]
  recv self_identifier msg (waiting_for_round2_packages pubkeys r1 r2) =
      let s = waiting_for_round2_packages pubkeys r1 r2 in
      elim (C.read_round2_package msg.msg) [
        | none ↦ (err invalid_json, s)
        | some pkg ↦ handle_round2_package msg.sender pkg s
      ]
  recv self_identifier msg (round2_packages_ready pubkeys r2) =
      (err wrong_state, round2_packages_ready pubkeys r2)

  unfoldable pub has_round1_packages : State → Bool
  has_round1_packages (waiting_for_round1_packages_broadcast pubkeys r1 bs) = true
  has_round1_packages (waiting_for_round2_packages pubkeys r1 r2) = true
  has_round1_packages _ = false

  unfoldable pub round1_packages : State → Outcome SessionError Packages
  round1_packages (waiting_for_round1_packages_broadcast pubkeys r1 bs) = ok r1
  round1_packages (waiting_for_round2_packages pubkeys r1 r2) = ok r1
  round1_packages _ = panic

  unfoldable pub has_round1_broadcast_packages : State → Bool
  has_round1_broadcast_packages (waiting_for_round2_packages pubkeys r1 r2) = true
  has_round1_broadcast_packages _ = false

  unfoldable pub has_round2_packages : State → Bool
  has_round2_packages (round2_packages_ready pubkeys r2) = true
  has_round2_packages _ = false

  unfoldable pub round2_packages : State → Outcome SessionError (Map Identifier Round2Package)
  round2_packages (round2_packages_ready pubkeys r2) = ok r2
  round2_packages _ = panic
