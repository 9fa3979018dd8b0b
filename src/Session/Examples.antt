-- ===== src/Session/Examples.antt =====
-- A toy ciphersuite, and the theorems about sessions at runs over it.
use frost_tools.Prelude.{
  length, ◌+◌, ℕ, ◌≡◌, ◌⊎◌, ◌≢◌, ◌↔◌, refl, true, Option, none, some, List, [], ◌∷◌, arith, nat_eq,
  Map, get, insert, set_eq, set_insert, contains, is_some, list_beq, ok, panic, contains_key,
}
use frost_tools.Api.{PublicKey, public_key_eq, public_key_beq, Msg, Bytes}
use frost_tools.Session.Suite.{Suite}
use frost_tools.Session.Coordinator
use frost_tools.Session.Coordinator.{
  SessionArgs, waiting_for_commitments, waiting_for_signature_shares, signature_shares_ready,
}
use frost_tools.Session.Coordinator.Progress.{recv_refused, commitments_complete, shares_complete}
use frost_tools.Session.Dkg
use frost_tools.Session.Dkg.{waiting_for_round2_packages, waiting_for_round1_packages}
use frost_tools.Session.Dkg.Agreement.{Run, start, next, Sent, Echoed}
use frost_tools.Session.Dkg.Agreement.Rounds.{agreement, SameTables, refused_tables}

abbrev one : Bytes → Option ℕ
one (a ∷ []) = some a
one _ = none

abbrev two : Bytes → Option (ℕ × ℕ)
two (a ∷ b ∷ []) = some (a, b)
two _ = none

abbrev pub toy : Suite
toy = record {
  Identifier = ℕ;
  identifier_eq = nat_eq;
  SigningCommitments = ℕ;
  SignatureShare = ℕ;
  Round1Package = ℕ;
  round1_package_eq = nat_eq;
  Round2Package = ℕ;
  read_commitments = some;
  read_signature_shares = some;
  read_round1_package = one;
  read_broadcast = two;
  read_round2_package = one;
}

abbrev pub key : ℕ → PublicKey
key n = record { bytes = n ∷ [] }

abbrev pub from : ℕ → Bytes → Msg
from n b = record { sender = key n; msg = b }

-- Two signers and two messages to sign.
abbrev pub known : Map PublicKey ℕ
known = (key 1, 101) ∷ (key 2, 102) ∷ []

abbrev commits : List Msg
commits = from 1 (5 ∷ 6 ∷ []) ∷ from 2 (7 ∷ 8 ∷ []) ∷ []

abbrev shares : List Msg
shares = from 1 (1 ∷ 2 ∷ []) ∷ from 2 (3 ∷ 4 ∷ []) ∷ []

abbrev both : SessionArgs
both = record { num_messages = 2; num_signers = 2 }

abbrev rows : Map ℕ (List ℕ)
rows = (101, 5 ∷ 6 ∷ []) ∷ (102, 7 ∷ 8 ∷ []) ∷ []

committed :
    Coordinator.recv_all toy commits (Coordinator.new toy 2 2 known)
    ≡ waiting_for_signature_shares both rows known []
unfolding Coordinator.recv_all Coordinator.new Coordinator.recv get insert public_key_beq list_beq
committed = refl

abbrev share_rows : Map ℕ (List ℕ)
share_rows = (101, 1 ∷ 2 ∷ []) ∷ (102, 3 ∷ 4 ∷ []) ∷ []

signed :
    Coordinator.recv_all toy
      (from 1 (5 ∷ 6 ∷ []) ∷ from 2 (7 ∷ 8 ∷ []) ∷ shares)
      (Coordinator.new toy 2 2 known)
    ≡ signature_shares_ready both share_rows
unfolding Coordinator.recv_all Coordinator.new Coordinator.recv get insert public_key_beq list_beq
    contains_key set_eq contains
signed = refl

-- A row that is too short is refused.
short_row : (Coordinator.recv toy (from 1 (5 ∷ [])) (Coordinator.new toy 2 2 known)).0 ≢ ok tt
unfolding Coordinator.recv Coordinator.new
short_row e = cc

recv_refused_example :
    ((Coordinator.recv toy (from 1 (5 ∷ [])) (Coordinator.new toy 2 2 known)).1
      ≡ Coordinator.new toy 2 2 known)
    × ((Coordinator.recv toy (from 1 (5 ∷ [])) (Coordinator.new toy 2 2 known)).0 ≢ panic)
recv_refused_example = recv_refused toy (from 1 (5 ∷ [])) (Coordinator.new toy 2 2 known) short_row

commitments_complete_example :
    Coordinator.has_commitments toy
      (Coordinator.recv_all toy commits (Coordinator.new toy 2 2 known))
    ≡ true
unfolding get insert public_key_beq list_beq
commitments_complete_example =
    commitments_complete toy 2 2 known commits (omega arith) (omega arith)
      (5 ∷ 6 ∷ [], 101, refl, refl, refl, refl, (7 ∷ 8 ∷ [], 102, refl, refl, refl, refl, tt))

abbrev first_share : Map ℕ (List ℕ)
first_share = (101, 1 ∷ 2 ∷ []) ∷ []

shares_complete_example :
    let (r, t) =
      Coordinator.handle_signature_share toy
        (key 1)
        (1 ∷ 2 ∷ [])
        (waiting_for_signature_shares both rows known []) in
    (r ≡ ok tt)
    × ((t ≡ signature_shares_ready both first_share)
        ⊎ (t ≡ waiting_for_signature_shares both rows known first_share))
    × ((Coordinator.has_signature_shares toy t ≡ true)
        ↔ ((j : ℕ) → is_some (get rows j) ≡ true → is_some (get first_share j) ≡ true))
unfolding get insert public_key_beq list_beq
shares_complete_example =
    shares_complete toy both rows known [] (key 1) (1 ∷ 2 ∷ []) 101
      ((refl, (refl, tt)), tt, refl, λ id h. cc) refl refl refl

-- A DKG of three, as participant 103 sees it: the first-round packages of the two others, and the
-- echo of each by the other.
abbrev pub trio : Map PublicKey ℕ
trio = (key 1, 101) ∷ (key 2, 102) ∷ (key 3, 103) ∷ []

abbrev received : List Msg
received =
    from 2 (101 ∷ 11 ∷ []) ∷ from 1 (102 ∷ 12 ∷ []) ∷ from 2 (12 ∷ []) ∷ from 1 (11 ∷ []) ∷ []

abbrev packages : Map ℕ ℕ
packages = (101, 11) ∷ (102, 12) ∷ []

dkg-Run : Run toy 103 trio received (waiting_for_round2_packages trio packages [])
unfolding Dkg.recv Dkg.check_broadcast Dkg.take_broadcast Dkg.record_echo Dkg.is_complete Dkg.echoed
    Dkg.is_original get insert public_key_beq list_beq set_eq set_insert contains
dkg-Run =
    next (next (next (next start (from 1 (11 ∷ []))) (from 2 (12 ∷ []))) (from 1 (102 ∷ 12 ∷ [])))
      (from 2 (101 ∷ 11 ∷ []))

agreement_example :
    (length packages + 1 ≡ length trio)
    × Sent toy 103 trio received 101 11
    × Echoed toy 103 trio received 101 102 11
unfolding get
agreement_example =
    agreement toy 103 trio trio packages [] 101 102 11 dkg-Run (omega arith) refl refl (omega arith)

no_package : (Dkg.recv toy 103 (from 1 []) (waiting_for_round1_packages trio [])).0 ≢ ok tt
unfolding Dkg.recv
no_package e = cc

refused_tables_example :
    SameTables toy 103 trio
      (waiting_for_round1_packages trio [])
      (Dkg.recv toy 103 (from 1 []) (waiting_for_round1_packages trio [])).1
refused_tables_example =
    refused_tables toy 103 trio (waiting_for_round1_packages trio []) (from 1 []) start no_package
